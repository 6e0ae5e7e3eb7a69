-- ===== src/Nats/Crud/Consumer.antt =====
-- internal/nats/crudproxy.go: whose records a published operation can change.
use cali_go_stack.Base.{
  ◌≡◌, ◌≢◌, refl, String, true, false, Option, some, none, List, [], ◌∷◌, arith, ◌==◌, eq_iff,
  Bool-cases, Option-cases, inl, inr,
}
use cali_go_stack.Store.App.{App, Laws, Record, has_id, completed_is, owner_is}
use cali_go_stack.Store.Pb.Clear.{has_id-filter}
use cali_go_stack.Nats.Crud.{
  CrudOp, CrudData, CrudPayload, create, toggle, delete, clear_completed, other, consume, dispatch,
  target, handle_create, handle_toggle, handle_delete, handle_clear_completed, flag_of, delete_each,
  replica,
}

module _ (a : App) (laws : Laws a) where
  open a use {Db, find_by_id}

  keep_create :
      (user : String) (content : Option CrudData) (db : Db) (r : Record)
      → find_by_id db r.id ≡ some r
      → find_by_id (handle_create a user content db) r.id ≡ some r
  unfolding handle_create
  keep_create user none db r found = found
  keep_create user (some d) db r found = elim (Option-cases (a.insert db (replica a user d))) [
    | inl failed ↦ ground (arith, failed, found)
    | inr ((stored, db'), inserted) ↦ ground (
      arith,
      found,
      inserted,
      laws.insert_fresh db db' (replica a user d) stored inserted,
      laws.find_insert db db' (replica a user d) stored r.id inserted,
      eq_iff stored.id r.id,
    )
  ]

  -- A record that a toggle or a delete touches is the publisher's user's, or nobody's.
  target_found :
      (user : String) (content : Option CrudData) (db : Db) (t : Record)
      → target a user content db ≡ some t
      → (find_by_id db t.id ≡ some t) × (t.id ≢ "") × (t.owner ≢ "" → t.owner ≡ user)
  unfolding target
  target_found user none db t touched = cc
  target_found user (some d) db t touched = elim (Option-cases (find_by_id db d.id)) [
    | inl missing ↦ absurd (ground (arith, missing))
    | inr (r, found) ↦
        let same = laws.find_id db d.id r found in
        (
          ground (arith, same, found),
          λ e. ground (arith, same, found, eq_iff d.id ""),
          λ ne. ground (arith, found, eq_iff t.owner user, eq_iff t.owner ""),
        )
  ]

  keep_toggle :
      (user : String) (content : Option CrudData) (db : Db) (r : Record)
      → find_by_id db r.id ≡ some r
      → r.owner ≢ ""
      → r.owner ≢ user
      → find_by_id (handle_toggle a user content db) r.id ≡ some r
  unfolding handle_toggle
  keep_toggle user content db r found owned others =
      elim (Option-cases (target a user content db)) [
        | inl nothing ↦ ground (arith, nothing, found)
        | inr (t, touched) ↦
            let (stored_t, named, own) = target_found user content db t touched in
            let next : Record = record t { completed = flag_of a content } in
            elim (Option-cases (a.save db next)) [
              | inl failed ↦ ground (arith, touched, failed)
              | inr ((stored, db'), saved) ↦ ground (
                arith,
                touched,
                saved,
                laws.find_save db db' next stored r.id saved,
                (laws.save_stores db db' next stored saved).id named,
                eq_iff stored.id r.id,
              )
            ]
      ]

  keep_delete :
      (user : String) (content : Option CrudData) (db : Db) (r : Record)
      → find_by_id db r.id ≡ some r
      → r.owner ≢ ""
      → r.owner ≢ user
      → find_by_id (handle_delete a user content db) r.id ≡ some r
  unfolding handle_delete
  keep_delete user content db r found owned others =
      elim (Option-cases (target a user content db)) [
        | inl nothing ↦ ground (arith, nothing, found)
        | inr (t, touched) ↦
            let (stored_t, named, own) = target_found user content db t touched in
            elim (Option-cases (a.delete db t)) [
              | inl failed ↦ ground (arith, touched, failed)
              | inr (db', deleted) ↦ ground (
                arith,
                touched,
                deleted,
                laws.find_delete db db' t r.id deleted,
                eq_iff t.id r.id,
              )
            ]
      ]

  find-delete_each :
      (rs : List Record) (db : Db) (id : String)
      → has_id id rs ≡ false
      → find_by_id (delete_each a rs db) id ≡ find_by_id db id
  unfolding delete_each
  find-delete_each [] db id absent = refl
  find-delete_each (r ∷ rs) db id absent = elim (Option-cases (a.delete db r)) [
    | inl failed ↦ ground (arith, failed, find-delete_each rs db id)
    | inr (db', deleted) ↦
        ground (arith, deleted, laws.find_delete db db' r id deleted, find-delete_each rs db' id)
  ]

  keep_clear :
      (user : String) (db : Db) (r : Record)
      → find_by_id db r.id ≡ some r
      → r.owner ≢ user
      → find_by_id (handle_clear_completed a user db) r.id ≡ some r
  unfolding handle_clear_completed
  keep_clear user db r found others =
      let mine = completed_is true ∷ owner_is user ∷ [] in
      elim (Option-cases (a.find_by_filter db mine)) [
        | inl failed ↦ ground (arith, failed, found)
        | inr (rs, queried) ↦ ground (
          arith,
          queried,
          found,
          find-delete_each rs db r.id,
          has_id-filter a laws db mine rs r.id r queried found,
          eq_iff r.owner user,
        )
      ]

  -- No operation that another instance publishes, of any kind and content, changes a record that
  -- has an owner other than the user it was published for.
  pub consume_isolated :
      (p : CrudPayload) (db : Db) (r : Record)
      → find_by_id db r.id ≡ some r
      → r.owner ≢ ""
      → r.owner ≢ p.user
      → find_by_id (consume a p db).1 r.id ≡ some r
  unfolding consume
  consume_isolated p db r found owned others = elim (Bool-cases (p.user == "")) [
    | inl nobody ↦ ground (arith, nobody, found)
    | inr named ↦ rw named (kept p.op)
  ]
    where
      kept : (op : CrudOp) → find_by_id (dispatch a op p.user p.content db) r.id ≡ some r
      kept create = keep_create p.user p.content db r found
      kept toggle = keep_toggle p.user p.content db r found owned others
      kept delete = keep_delete p.user p.content db r found owned others
      kept clear_completed = keep_clear p.user db r found others
      kept (other op) = found
