-- ===== src/Store/Contract/Pb.antt =====
-- features/store/pbstore/pbstore.go keeps the contract, for an owner with an identity.
use cali_go_stack.Base.{
  ◌≡◌, ◌≢◌, refl, sym, subst, ap, ◌∙◌, String, Bool, true, false, Option, some, none, List, [], ◌∷◌,
  map, arith, ◌==◌, eq_iff, Option-cases, Bool-cases, ℕ, suc, length, inl, inr, if◌then◌else◌,
}
use native.Mathlib.Nat.{zero-add}
use cali_go_stack.Store.Entity.{Todo, Patch, title, completed, owner, unknown, ok, err, not_found}
use cali_go_stack.Store.App.{App, Laws, Record, All, matches, has_id, owner_is}
use cali_go_stack.Store.Pb.{
  pb_store, get, create, update, delete, list, clear_completed, clear_filter, delete_all, count,
  owned, foreign, from_record, set_fields, list_filter,
}
use cali_go_stack.Store.Pb.Effects.{create_ok, update_ok, given}
use cali_go_stack.Store.Pb.Clear.{has_id-filter, find-clear_completed, find-delete_all}
use cali_go_stack.Store.Contract.{
  Todos, Refines, Editable, put, without, read, edited, Created, shown_by, listed, unless_completed,
}

abbrev pub todo_of : Option Record → Option Todo
todo_of none = none
todo_of (some r) = some (from_record r)

set_fields-owner :
    (r : Record) (patch : List Patch) → All Editable patch → (set_fields r patch).owner ≡ r.owner
set_fields-owner r [] e = refl
set_fields-owner r (title t ∷ ps) e = set_fields-owner (record r { title = t }) ps e.1
set_fields-owner r (completed b ∷ ps) e = set_fields-owner (record r { completed = b }) ps e.1
set_fields-owner r (owner o ∷ ps) e = absurd e.0
set_fields-owner r (unknown k ∷ ps) e = absurd e.0

set_fields-id :
    (r : Record) (patch : List Patch) → All Editable patch → (set_fields r patch).id ≡ r.id
set_fields-id r [] e = refl
set_fields-id r (title t ∷ ps) e = set_fields-id (record r { title = t }) ps e.1
set_fields-id r (completed b ∷ ps) e = set_fields-id (record r { completed = b }) ps e.1
set_fields-id r (owner o ∷ ps) e = absurd e.0
set_fields-id r (unknown k ∷ ps) e = absurd e.0

module _ (a : App) (laws : Laws a) (user : String) (known : user ≢ "") where
  open a use {Db, find_by_id}

  -- Every record has an owner, which the code gives it at its creation.
  abbrev pub AreOwned : Db → Type 0
  AreOwned db = (id : String) (r : Record) → find_by_id db id ≡ some r → (r.owner == "") ≡ false

  -- The records that the owner may touch, as todos.
  abbrev pub Shows : Db → Todos → Type 0
  Shows db m = (id : String) → todo_of (owned a user id db) ≡ m id

  abbrev pub Holds : Db → Todos → Type 0
  Holds db m = AreOwned db × Shows db m

  -- A record of the owner's, stored under an id, is what the owner finds there, and no other record
  -- has moved.
  Holds-put :
      (db db' : Db) (m : Todos) (stored : Record)
      → Holds db m
      → (stored.owner == user) ≡ true
      → ((id : String)
          → find_by_id db' id ≡ (if stored.id == id then some stored else find_by_id db id))
      → Holds db' (put (from_record stored) m)
  unfolding owned from_record foreign
  Holds-put db db' m stored h own found = (
    λ id r there.
        ground (arith, found id, there, h.0 id r, own, eq_iff stored.owner user, eq_iff user ""),
    λ id. ground (arith, found id, h.1 id, own, eq_iff stored.owner user),
  )

  get_refines :
      (db : Db) (m : Todos) (id : String) → Holds db m → get a user id db ≡ (read (m id), db)
  unfolding get
  get_refines db m id h = elim (Option-cases (owned a user id db)) [
    | inl missing ↦ ground (arith, missing, h.1 id)
    | inr (r, found) ↦ ground (arith, found, h.1 id)
  ]

  create_refines :
      (db db' : Db) (m : Todos) (e t : Todo) (key : String)
      → Holds db m
      → create a e user key db ≡ (ok t, db')
      → Holds db' (put t m) × Created m e t
  unfolding owned from_record
  create_refines db db' m e t key h done =
      let (stored, saved, read_t) = create_ok a laws db db' e t user key done in
      let s = laws.insert_stores db db' (given a laws e user key) stored saved in
      let fresh = laws.insert_fresh db db' (given a laws e user key) stored saved in
      subst (λ t. Holds db' (put t m) × Created m e t) (sym read_t)
        (
          Holds-put db db' m stored h (ground (arith, s.owner, eq_iff stored.owner user))
              (λ id. laws.find_insert db db' (given a laws e user key) stored id saved),
          inr (ground (arith, h.1 stored.id, fresh), (s.title, s.completed)),
        )

  -- The title and the flag of a record after a patch are those of its todo after the patch.
  set_fields-edited :
      (r : Record) (t : Todo) (patch : List Patch)
      → All Editable patch
      → r.title ≡ t.title
      → r.completed ≡ t.completed
      → ((set_fields r patch).title ≡ (edited patch t).title)
        × ((set_fields r patch).completed ≡ (edited patch t).completed)
  set_fields-edited r t [] e same_title same_flag = (same_title, same_flag)
  set_fields-edited r t (title s ∷ ps) e same_title same_flag =
      set_fields-edited (record r { title = s }) (record t { title = s }) ps e.1 refl same_flag
  set_fields-edited r t (completed b ∷ ps) e same_title same_flag =
      set_fields-edited (record r { completed = b }) (record t { completed = b }) ps e.1 same_title
        refl
  set_fields-edited r t (owner o ∷ ps) e same_title same_flag = absurd e.0
  set_fields-edited r t (unknown k ∷ ps) e same_title same_flag = absurd e.0

  update_refines :
      (db db' : Db) (m : Todos) (id : String) (patch : List Patch) (t : Todo)
      → Holds db m
      → id ≢ ""
      → All Editable patch
      → update a user id patch db ≡ (ok t, db')
      → Holds db' (put t m)
        × (t.id ≡ id)
        × ((old : Todo) × (m id ≡ some old)
            × (t.title ≡ (edited patch old).title)
            × (t.completed ≡ (edited patch old).completed))
  unfolding foreign owned from_record
  update_refines db db' m id patch t h named edits done =
      let (r, stored, found, own, saved, read_t) = update_ok a laws db db' user id patch t done in
      let next = set_fields r patch in
      let s = laws.save_stores db db' next stored saved in
      let same : r.id ≡ id = laws.find_id db id r found in
      let kept_id : next.id ≡ r.id = set_fields-id r patch edits in
      let kept_owner : next.owner ≡ r.owner = set_fields-owner r patch edits in
      let stored_id : stored.id ≡ id =
        s.id (λ e. named (sym same ∙ sym kept_id ∙ e)) ∙ kept_id ∙ same in
      let mine : (stored.owner == user) ≡ true = ground (
        arith,
        s.owner,
        kept_owner,
        own,
        h.0 id r found,
        eq_iff user "",
        eq_iff stored.owner user,
        eq_iff r.owner user,
      ) in
      let (to_title, to_flag) = set_fields-edited r (from_record r) patch edits refl refl in
      (
        subst (λ t. Holds db' (put t m)) (sym read_t)
            (Holds-put db db' m stored h mine (λ j. laws.find_save db db' next stored j saved)),
        ap (λ (t : Todo). t.id) read_t ∙ stored_id,
        (
          from_record r,
          ground (arith, h.1 id, found, own),
          ap (λ (t : Todo). t.title) read_t ∙ s.title ∙ to_title,
          ap (λ (t : Todo). t.completed) read_t ∙ s.completed ∙ to_flag,
        ),
      )

  flag_refines :
      (db db' : Db) (id : String) (b : Bool) (t : Todo)
      → update a user id (completed b ∷ []) db ≡ (ok t, db')
      → t.completed ≡ b
  unfolding from_record
  flag_refines db db' id b t done =
      let (r, stored, found, own, saved, read_t) =
        update_ok a laws db db' user id (completed b ∷ []) t done in
      let s = laws.save_stores db db' (record r { completed = b }) stored saved in
      ap (λ (t : Todo). t.completed) read_t ∙ s.completed

  delete_ok :
      (db db' : Db) (id : String)
      → delete a user id db ≡ (ok tt, db')
      → (r : Record) × (find_by_id db id ≡ some r) × (a.delete db r ≡ some db')
  unfolding delete owned
  delete_ok db db' id done = elim (Option-cases (owned a user id db)) [
    | inl missing ↦ absurd (ground (arith, missing))
    | inr (r, held) ↦ elim (Option-cases (find_by_id db id)) [
      | inl missing ↦ absurd (ground (arith, missing, held))
      | inr (r', found) ↦ elim (Option-cases (a.delete db r')) [
        | inl failed ↦ absurd (ground (arith, found, held, failed))
        | inr (next, deleted) ↦ (r', found, ground (arith, found, held, deleted))
      ]
    ]
  ]

  delete_refines :
      (db db' : Db) (m : Todos) (id : String)
      → Holds db m
      → delete a user id db ≡ (ok tt, db')
      → Holds db' (without id m)
  unfolding owned
  delete_refines db db' m id h done =
      let (r, found, deleted) = delete_ok db db' id done in
      let same = laws.find_id db id r found in
      (
        λ j q there. ground (arith, laws.find_delete db db' r j deleted, h.0 j q, there),
        λ j. ground (arith, laws.find_delete db db' r j deleted, h.1 j, same),
      )

  update_missing_refines :
      (db : Db) (m : Todos) (id : String) (patch : List Patch)
      → Holds db m
      → m id ≡ none
      → update a user id patch db ≡ (err not_found, db)
  unfolding update
  update_missing_refines db m id patch h missing = elim (Option-cases (owned a user id db)) [
    | inl absent ↦ ground (arith, absent)
    | inr (r, found) ↦ absurd (ground (arith, found, h.1 id, missing))
  ]

  delete_missing_refines :
      (db : Db) (m : Todos) (id : String)
      → Holds db m
      → m id ≡ none
      → delete a user id db ≡ (err not_found, db)
  unfolding delete
  delete_missing_refines db m id h missing = elim (Option-cases (owned a user id db)) [
    | inl absent ↦ ground (arith, absent)
    | inr (r, found) ↦ absurd (ground (arith, found, h.1 id, missing))
  ]

  -- Of a record of the owner's, a query of List sees what the filter says of its todo.
  matches-list_filter :
      (r : Record) (filter : String)
      → (r.owner == user) ≡ true
      → matches r (list_filter user filter) ≡ shown_by filter (from_record r)
  unfolding list_filter from_record
  matches-list_filter r filter own = elim (Bool-cases (filter == "active")) [
    | inl active ↦ ground (arith, active, eq_iff user "", own)
    | inr other ↦ elim (Bool-cases (filter == "completed")) [
      | inl done ↦ ground (arith, other, done, eq_iff user "", own)
      | inr every ↦ ground (arith, other, every, eq_iff user "", own)
    ]
  ]

  matches_own :
      (r : Record) (filter : String)
      → matches r (list_filter user filter) ≡ true
      → (r.owner == user) ≡ true
  unfolding list_filter
  matches_own r filter hit = ground (arith, eq_iff user "")

  -- A todo of the map is a record of the owner's.
  own_record :
      (db : Db) (m : Todos) (id : String) (t : Todo)
      → Holds db m
      → m id ≡ some t
      → (r : Record) × (find_by_id db id ≡ some r)
        × ((r.owner == user) ≡ true)
        × (from_record r ≡ t)
  unfolding owned foreign
  own_record db m id t h there = elim (Option-cases (find_by_id db id)) [
    | inl missing ↦ absurd (ground (arith, missing, h.1 id, there))
    | inr (r, found) ↦ (
      r,
      found,
      ground (arith, found, h.0 id r, h.1 id, there, eq_iff user "", eq_iff r.owner user),
      ground (arith, found, h.0 id r, h.1 id, there, eq_iff user "", eq_iff r.owner user),
    )
  ]

  listed_held :
      (db : Db) (m : Todos) (filter : String) (rs : List Record)
      → Holds db m
      → All (λ r. (find_by_id db r.id ≡ some r) × (matches r (list_filter user filter) ≡ true)) rs
      → All (λ t. (m t.id ≡ some t) × (shown_by filter t ≡ true)) (map from_record rs)
  unfolding owned foreign from_record
  listed_held db m filter [] h s = tt
  listed_held db m filter (r ∷ rs) h s =
      let own = matches_own r filter s.0.1 in
      (
        (
          ground (arith, h.1 r.id, s.0.0, own, eq_iff r.owner user, eq_iff user ""),
          sym (matches-list_filter r filter own) ∙ s.0.1,
        ),
        listed_held db m filter rs h s.1,
      )

  listed-map : (id : String) (rs : List Record) → listed id (map from_record rs) ≡ has_id id rs
  unfolding from_record
  listed-map id [] = refl
  listed-map id (r ∷ rs) = ground (arith, listed-map id rs)

  list_ok :
      (db db' : Db) (filter : String) (ts : List Todo)
      → list a user filter db ≡ (ok ts, db')
      → (rs : List Record) × (a.find_by_filter db (list_filter user filter) ≡ some rs)
        × (map from_record rs ≡ ts)
        × (db ≡ db')
  unfolding list
  list_ok db db' filter ts done =
      elim (Option-cases (a.find_by_filter db (list_filter user filter))) [
        | inl failed ↦ absurd (ground (arith, failed))
        | inr (rs, queried) ↦ (rs, queried, ground (arith, queried), ground (arith, queried))
      ]

  list_refines :
      (db db' : Db) (m : Todos) (filter : String) (ts : List Todo)
      → Holds db m
      → list a user filter db ≡ (ok ts, db')
      → Holds db' m
        × All (λ t. (m t.id ≡ some t) × (shown_by filter t ≡ true)) ts
        × ((id : String) (t : Todo)
            → m id ≡ some t
            → shown_by filter t ≡ true
            → listed id ts ≡ true)
  list_refines db db' m filter ts h done =
      let (rs, queried, same, kept) = list_ok db db' filter ts done in
      (
        subst (λ db. Holds db m) kept h,
        subst (All (λ t. (m t.id ≡ some t) × (shown_by filter t ≡ true))) same (
            listed_held db m filter rs h
              (laws.filter_sound db (list_filter user filter) rs queried)),
        λ id t there shown.
            let (r, found, own, read) = own_record db m id t h there in
            let at = laws.find_id db id r found in
            let hit : matches r (list_filter user filter) ≡ true =
              matches-list_filter r filter own
              ∙ ap (λ (t : Todo). shown_by filter t) read
              ∙ shown in
            subst (λ ts. listed id ts ≡ true) same
              (listed-map id rs
                ∙ has_id-filter a laws db (list_filter user filter) rs id r queried found
                ∙ hit),
      )

  clear_ok :
      (db db' : Db) (n : ℕ)
      → clear_completed a user db ≡ (ok n, db')
      → (rs : List Record) × (a.find_by_filter db (clear_filter a user) ≡ some rs)
        × (delete_all a rs 0 db ≡ (ok n, db'))
  unfolding clear_completed
  clear_ok db db' n done = elim (Option-cases (a.find_by_filter db (clear_filter a user))) [
    | inl failed ↦ absurd (ground (arith, failed))
    | inr (rs, queried) ↦ (rs, queried, ground (arith, queried))
  ]

  length-shown : (rs : List Record) → length (map from_record rs) ≡ length rs
  length-shown [] = refl
  length-shown (r ∷ rs) = ap suc (length-shown rs)

  -- How many a list shows, where the query that it asks has been answered.
  length-list :
      (db : Db) (filter : String) (rs : List Record) (ts : List Todo)
      → a.find_by_filter db (list_filter user filter) ≡ some rs
      → (list a user filter db).0 ≡ ok ts
      → length rs ≡ length ts
  unfolding list
  length-list db filter rs ts queried shown = sym (length-shown rs) ∙ ground (arith, queried, shown)

  count_ok :
      (db db' : Db) (n : ℕ)
      → count a user db ≡ (ok n, db')
      → (rs : List Record) × (a.find_by_filter db (list_filter user "") ≡ some rs)
        × (length rs ≡ n)
        × (db ≡ db')
  unfolding count list_filter
  count_ok db db' n done =
      elim (Option-cases (a.find_by_filter db (if user == "" then [] else owner_is user ∷ []))) [
        | inl failed ↦ absurd (ground (arith, failed))
        | inr (rs, queried) ↦ (rs, queried, ground (arith, queried), ground (arith, queried))
      ]

  clear_refines :
      (db db' : Db) (m : Todos) (n : ℕ)
      → Holds db m
      → clear_completed a user db ≡ (ok n, db')
      → Holds db' (λ id. unless_completed (m id))
        × ((ts : List Todo) → (list a user "completed" db).0 ≡ ok ts → n ≡ length ts)
  unfolding owned foreign from_record list_filter
  clear_refines db db' m n h done =
      let (rs, queried, loop) = clear_ok db db' n done in
      (
        (
          λ id r there. elim (Option-cases (find_by_id db id)) [
            | inl missing ↦
                ground (arith, missing, there, find-clear_completed a laws db db' user id n done)
            | inr (q, found) ↦
                ground
                  (arith, found, there, h.0 id q, find-clear_completed a laws db db' user id n done)
          ],
          λ id. elim (Option-cases (find_by_id db id)) [
            | inl missing ↦
                ground (arith, missing, h.1 id, find-clear_completed a laws db db' user id n done)
            | inr (q, found) ↦ ground (
              arith,
              found,
              h.0 id q,
              h.1 id,
              eq_iff user "",
              eq_iff q.owner user,
              find-clear_completed a laws db db' user id n done,
            )
          ],
        ),
        λ ts shown.
            (find-delete_all a laws rs 0 n db db' "" loop).1
            ∙ zero-add (length rs)
            ∙ length-list db "completed" rs ts queried shown,
      )

  count_refines :
      (db db' : Db) (m : Todos) (n : ℕ)
      → Holds db m
      → count a user db ≡ (ok n, db')
      → Holds db' m × ((ts : List Todo) → (list a user "" db).0 ≡ ok ts → n ≡ length ts)
  count_refines db db' m n h done =
      let (rs, queried, same, kept) = count_ok db db' n done in
      (
        subst (λ db. Holds db m) kept h,
        λ ts shown. sym same ∙ length-list db "" rs ts queried shown,
      )

  pub pb_store-Refines : Refines (pb_store a) user Holds
  pb_store-Refines = record {
    get = λ db m id h named. get_refines db m id h;
    list = list_refines;
    create = create_refines;
    update = update_refines;
    flag = λ db db' m id b t h named done. flag_refines db db' id b t done;
    delete = delete_refines;
    delete_missing = delete_missing_refines;
    clear_completed = clear_refines;
    count = count_refines;
    update_missing = update_missing_refines;
  }
