-- ===== src/Store/Projection/Sweep.antt =====
-- What writing a document to the table leaves there.
use cali_go_stack.Base.{
  ◌≡◌, sym, ap, ◌∙◌, String, Bool, false, not, ◌&&◌, ◌||◌, Option, some, none, List, [], ◌∷◌, arith,
  ◌==◌, eq_iff, Bool-cases, Option-cases, inl, inr, if◌then◌else◌,
}
use cali_go_stack.Store.Entity.{Todo, Error}
use cali_go_stack.Store.App.{App, Laws, Record, new_record, idem_key_is, owner_is}
use cali_go_stack.Store.Loro.{Loro}
use cali_go_stack.Store.Projection.{upsert, fill, delete_stale, wanted}

-- The id is that of a record of the page whose key no todo has.
abbrev pub is_stale : App → Loro → String → List Todo → List Record → Bool
is_stale a l id want [] = false
is_stale a l id want (r ∷ rs) =
    (not (wanted a l r.idem_key want) && r.id == id) || is_stale a l id want rs

module _ (a : App) (l : Loro) (laws : Laws a) where
  open a use {Db, find_by_id}

  -- A sweep that ends without an error has deleted exactly the records of its page whose key no todo
  -- of the document has: every other record is as it was.
  pub find-delete_stale :
      (want : List Todo) (rs : List Record) (db db' : Db) (id : String)
      → delete_stale a l want rs db ≡ (none, db')
      → find_by_id db' id ≡ (if is_stale a l id want rs then none else find_by_id db id)
  unfolding delete_stale
  find-delete_stale want [] db db' id done =
      ap (λ (x : Option Error × Db). find_by_id x.1 id) (sym done)
  find-delete_stale want (r ∷ rs) db db' id done = elim (Bool-cases (wanted a l r.idem_key want)) [
    | inl kept ↦ ground (arith, kept, find-delete_stale want rs db db' id)
    | inr stale ↦ elim (Option-cases (a.delete db r)) [
      | inl failed ↦ absurd (ground (arith, stale, failed))
      | inr (next, deleted) ↦ ground (
        arith,
        stale,
        deleted,
        laws.find_delete db next r id deleted,
        find-delete_stale want rs next db' id,
      )
    ]
  ]

  -- A todo that was written to the table without an error is a record there: under the todo's id as
  -- its key, with the owner, the title and the state.
  pub upsert_stores :
      (owner : String) (t : Todo) (db db' : Db)
      → upsert a l owner t db ≡ (none, db')
      → (r : Record) × (find_by_id db' r.id ≡ some r)
        × (r.idem_key ≡ t.id)
        × (r.owner ≡ owner)
        × (r.title ≡ t.title)
        × (r.completed ≡ t.completed)
  unfolding upsert
  upsert_stores owner t db db' done =
      elim (Option-cases (a.find_first db (idem_key_is t.id ∷ owner_is owner ∷ []))) [
        | inl absent ↦
            let given = fill a l owner t (record new_record { idem_key = t.id }) in
            elim (Option-cases (a.insert db given)) [
              | inl failed ↦ absurd (ground (arith, absent, failed))
              | inr ((stored, next), inserted) ↦
                  let s = laws.insert_stores db next given stored inserted in
                  let at = laws.find_insert db next given stored stored.id inserted in
                  (
                    stored,
                    ground (arith, absent, inserted, at, eq_iff stored.id stored.id),
                    s.idem_key,
                    s.owner,
                    s.title,
                    s.completed,
                  )
            ]
        | inr (r, found) ↦
            let given = fill a l owner t r in
            let (held, hit) =
              laws.find_first_sound db (idem_key_is t.id ∷ owner_is owner ∷ []) r found in
            elim (Option-cases (a.save db given)) [
              | inl failed ↦ absurd (ground (arith, found, failed))
              | inr ((stored, next), saved) ↦
                  let s = laws.save_stores db next given stored saved in
                  let at = laws.find_save db next given stored stored.id saved in
                  (
                    stored,
                    ground (arith, found, saved, at, eq_iff stored.id stored.id),
                    s.idem_key ∙ ground (arith, hit, eq_iff r.idem_key t.id),
                    s.owner,
                    s.title,
                    s.completed,
                  )
            ]
      ]
