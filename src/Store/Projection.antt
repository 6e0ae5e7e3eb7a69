-- ===== src/Store/Projection.antt =====
-- features/store/crdtstore/crdtstore.go: a document's todos written to the table as records.
pub mod Sweep
use cali_go_stack.Base.{
  ℕ, String, Bool, false, ◌||◌, Option, none, some, List, [], ◌∷◌, ◌==◌, nat_eq, if◌then◌else◌,
}
use cali_go_stack.Store.Entity.{Todo, Error, no_collection, save_failed, list_failed, delete_failed}
use cali_go_stack.Store.App.{App, Record, new_record, owner_is, idem_key_is}
use cali_go_stack.Store.Loro.{Loro}
use cali_go_stack.Store.Items.{todos_of}

module _ (a : App) (l : Loro) where
  open a use {Db}
  open l use {Doc}

  -- The record that upsertTodoRecord saves for a todo, over the one that it found.
  abbrev pub fill : String → Todo → Record → Record
  fill owner t r = record r {
    owner = owner;
    title = t.title;
    completed = t.completed;
    created = if nat_eq t.created 0 then r.created else t.created;
    updated = if nat_eq t.updated 0 then r.updated else t.updated;
  }

  abbrev pub after_upsert : Db → Option (Record × Db) → Option Error × Db
  after_upsert db none = (some save_failed, db)
  after_upsert db (some (stored, db')) = (none, db')

  unfoldable pub upsert : String → Todo → Db → Option Error × Db
  upsert owner t db =
      if a.find_collection db
      then after_upsert db (elim (a.find_first db (idem_key_is t.id ∷ owner_is owner ∷ [])) [
        | none ↦ a.insert db (fill owner t (record new_record { idem_key = t.id }))
        | some r ↦ a.save db (fill owner t r)
      ])
      else (some no_collection, db)

  unfoldable pub upsert_all : String → List Todo → Db → Option Error × Db
  upsert_all owner [] db = (none, db)
  upsert_all owner (t ∷ ts) db =
      let (failed, db') = upsert owner t db in
      elim failed [ none ↦ upsert_all owner ts db' | some e ↦ (some e, db') ]

  abbrev pub wanted : String → List Todo → Bool
  wanted key [] = false
  wanted key (t ∷ ts) = (t.id == key) || wanted key ts

  -- The records of the page whose key no todo has are deleted.
  unfoldable pub delete_stale : List Todo → List Record → Db → Option Error × Db
  delete_stale want [] db = (none, db)
  delete_stale want (r ∷ rs) db =
      if wanted r.idem_key want then delete_stale want rs db else elim (a.delete db r) [
        | none ↦ (some delete_failed, db)
        | some db' ↦ delete_stale want rs db'
      ]

  abbrev pub page_size : ℕ
  page_size = 200

  abbrev pub sweep : String → List Todo → Option Error × Db → Option Error × Db
  sweep owner want (some e, db) = (some e, db)
  sweep owner want (none, db) = elim (a.find_page db (owner_is owner ∷ []) false page_size) [
    | none ↦ (some list_failed, db)
    | some have ↦ delete_stale want have db
  ]

  -- persistRecords on the table.
  unfoldable pub project : String → Doc → Db → Option Error × Db
  project owner d db = let want = todos_of (l.all d) in sweep owner want (upsert_all owner want db)
