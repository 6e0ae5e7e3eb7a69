-- ===== src/Store/Pb/Effects.antt =====
-- What a mutation leaves to be read, and what becomes of a create that is sent again.
use cali_go_stack.Base.{
  ◌≡◌, ◌≢◌, refl, sym, ◌∙◌, String, Bool, true, false, some, List, [], ◌∷◌, arith, eq_iff,
  Option-cases, inl, inr,
}
use cali_go_stack.Store.Entity.{Todo, Patch, ok, err, save_failed, completed}
use cali_go_stack.Store.App.{App, Laws, Record, new_record}
use cali_go_stack.Store.Pb.{foreign, owned, get, create, update, from_record, set_fields}

module _ (a : App) (laws : Laws a) where
  open a use {Db, find_by_id}

  -- The record that a create saves.
  abbrev pub given : Todo → (caller idem_key : String) → Record
  given e caller idem_key = record new_record {
    title = e.title;
    completed = e.completed;
    owner = caller;
    idem_key = idem_key;
  }

  -- What a create that succeeded has saved.
  pub create_ok :
      (db db' : Db) (e t : Todo) (caller idem_key : String)
      → create a e caller idem_key db ≡ (ok t, db')
      → (stored : Record) × (a.insert db (given e caller idem_key) ≡ some (stored, db'))
        × (t ≡ from_record stored)
  unfolding create
  create_ok db db' e t caller idem_key done =
      elim (Option-cases (a.insert db (given e caller idem_key))) [
        | inl failed ↦ absurd (ground (arith, failed))
        | inr (result, saved) ↦ (result.0, ground (arith, saved), ground (arith, saved))
      ]

  -- What an update that succeeded has read and saved.
  pub update_ok :
      (db db' : Db) (caller id : String) (patch : List Patch) (t : Todo)
      → update a caller id patch db ≡ (ok t, db')
      → (r : Record) × (stored : Record) × (find_by_id db id ≡ some r)
        × (foreign caller r ≡ false)
        × (a.save db (set_fields r patch) ≡ some (stored, db'))
        × (t ≡ from_record stored)
  unfolding update owned
  update_ok db db' caller id patch t done = elim (Option-cases (find_by_id db id)) [
    | inl missing ↦ absurd (ground (arith, missing))
    | inr (r, found) ↦ elim (Option-cases (a.save db (set_fields r patch))) [
      | inl failed ↦ absurd (ground (arith, found, failed))
      | inr (result, saved) ↦ (
        r,
        result.0,
        found,
        ground (arith, found, saved),
        ground (arith, found, saved),
        ground (arith, found, saved),
      )
    ]
  ]

  -- A todo whose create succeeded can be read by its owner, with its title and state, under the
  -- id that the create returned; and every record that was there before is unchanged.
  pub get-create :
      (db db' : Db) (e t : Todo) (caller idem_key : String)
      → create a e caller idem_key db ≡ (ok t, db')
      → (get a caller t.id db' ≡ (ok t, db'))
        × (t.title ≡ e.title)
        × (t.completed ≡ e.completed)
        × ((id : String) (r : Record) → find_by_id db id ≡ some r → find_by_id db' id ≡ some r)
  unfolding create get owned foreign from_record
  get-create db db' e t caller idem_key done =
      let (stored, saved, read) = create_ok db db' e t caller idem_key done in
      let s = laws.insert_stores db db' (given e caller idem_key) stored saved in
      let fresh = laws.insert_fresh db db' (given e caller idem_key) stored saved in
      let found = laws.find_insert db db' (given e caller idem_key) stored stored.id saved in
      (
        ground (arith, read, s, found, eq_iff stored.id stored.id, eq_iff stored.owner caller),
        ground (arith, read, s),
        ground (arith, read, s),
        λ id r old. ground (
          arith,
          old,
          fresh,
          eq_iff stored.id id,
          laws.find_insert db db' (given e caller idem_key) stored id saved,
        ),
      )

  -- A patch of the completed flag that succeeds, under an id that is not empty, returns the todo
  -- with that id and flag, is what is read afterwards, and touches no other record.
  pub get-update :
      (db db' : Db) (caller id : String) (flag : Bool) (t : Todo)
      → id ≢ ""
      → update a caller id (completed flag ∷ []) db ≡ (ok t, db')
      → (get a caller id db' ≡ (ok t, db'))
        × (t.id ≡ id)
        × (t.completed ≡ flag)
        × ((j : String) → j ≢ id → find_by_id db' j ≡ find_by_id db j)
  unfolding get update owned foreign from_record
  get-update db db' caller id flag t named done =
      let (r, stored, found, own, saved, read) =
        update_ok db db' caller id (completed flag ∷ []) t done in
      let patched : Record = record r { completed = flag } in
      let same = laws.find_id db id r found in
      let s = laws.save_stores db db' patched stored saved in
      let kept = s.id (λ e. named (sym same ∙ e)) in
      (
        ground (
          arith,
          read,
          s,
          kept,
          same,
          own,
          laws.find_save db db' patched stored id saved,
          eq_iff stored.id id,
        ),
        ground (arith, read, kept, same),
        ground (arith, read, s),
        λ j ne.
            ground
              (arith, kept, same, laws.find_save db db' patched stored j saved, eq_iff stored.id j),
      )

  -- The record that a patch of the completed flag leaves in the table.
  pub find-update :
      (db db' : Db) (caller id : String) (flag : Bool) (t : Todo)
      → id ≢ ""
      → update a caller id (completed flag ∷ []) db ≡ (ok t, db')
      → (stored : Record) × (find_by_id db' id ≡ some stored)
        × (t ≡ from_record stored)
        × (t.id ≡ id)
        × (stored.completed ≡ flag)
  unfolding from_record
  find-update db db' caller id flag t named done =
      let (r, stored, found, own, saved, read) =
        update_ok db db' caller id (completed flag ∷ []) t done in
      let patched : Record = record r { completed = flag } in
      let same = laws.find_id db id r found in
      let s = laws.save_stores db db' patched stored saved in
      let kept = s.id (λ e. named (sym same ∙ e)) in
      (
        stored,
        ground
            (arith, kept, same, laws.find_save db db' patched stored id saved, eq_iff stored.id id),
        read,
        ground (arith, read, kept, same),
        s.completed,
      )

  -- A create that succeeded and is sent again under the same key, which is not empty, while the
  -- collection is there, is refused by the unique index: it makes no second record, and it
  -- answers with an error and not with the first record.
  pub create_again :
      (db db' : Db) (e t : Todo) (caller idem_key : String)
      → idem_key ≢ ""
      → a.find_collection db' ≡ true
      → create a e caller idem_key db ≡ (ok t, db')
      → create a e caller idem_key db' ≡ (err save_failed, db')
  unfolding create from_record
  create_again db db' e t caller idem_key keyed there done =
      let (stored, saved, read) = create_ok db db' e t caller idem_key done in
      let s = laws.insert_stores db db' (given e caller idem_key) stored saved in
      let found = laws.find_insert db db' (given e caller idem_key) stored stored.id saved in
      let again =
        laws.insert_unique db' (given e caller idem_key) stored
          (found ∙ rw ((eq_iff stored.id stored.id).1 refl)) s.idem_key s.owner keyed in
      ground (arith, there, again)
