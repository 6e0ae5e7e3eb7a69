-- ===== src/Store/Pb.antt =====
-- features/store/pbstore/pbstore.go: the strategy that keeps each todo as a PocketBase record.
pub mod Isolation
pub mod Clear
pub mod Effects
use cali_go_stack.Base.{
  ℕ, zero, suc, ◌+◌, String, Bool, true, false, not, ◌&&◌, ◌||◌, Option, none, some, List, [], ◌∷◌,
  ◌++◌, map, ◌==◌, length, if◌then◌else◌,
}
use cali_go_stack.Store.Entity.{
  Todo, Error, not_found, no_collection, save_failed, list_failed, update_failed, delete_failed,
  count_failed, Result, ok, err, Patch, title, completed, owner, unknown, EntityStore,
}
use cali_go_stack.Store.App.{App, Record, new_record, Condition, completed_is, owner_is}

unfoldable pub from_record : Record → Todo
from_record r = record {
  id = r.id;
  title = r.title;
  completed = r.completed;
  created = r.created;
  updated = r.updated;
}

-- The ownership test of Get, Update and Delete: no caller, no owner, or the same.
unfoldable pub foreign : String → Record → Bool
foreign caller r = not (caller == "") && (not (r.owner == "") && not (r.owner == caller))

-- rec.Set(k, v): a key that the collection lacks changes nothing.
abbrev set_field : Record → Patch → Record
set_field r (title t) = record r { title = t }
set_field r (completed b) = record r { completed = b }
set_field r (owner o) = record r { owner = o }
set_field r (unknown k) = r

abbrev pub set_fields : Record → List Patch → Record
set_fields r [] = r
set_fields r (p ∷ ps) = set_fields (set_field r p) ps

-- The filter expression of List.
unfoldable pub list_filter : (caller filter : String) → List Condition
list_filter caller filter =
    (if filter == "active"
      then completed_is false ∷ []
      else if filter == "completed"
      then completed_is true ∷ []
      else [])
    ++ (if caller == "" then [] else owner_is caller ∷ [])

module _ (a : App) where
  open a use {Db, find_collection, find_by_id, find_by_filter, insert, save}

  abbrev saved : Error → Db → Option (Record × Db) → Result Todo × Db
  saved e db none = (err e, db)
  saved e db (some (stored, db')) = (ok (from_record stored), db')

  unfoldable pub create : Todo → (caller idem_key : String) → Db → Result Todo × Db
  create e caller idem_key db =
      if find_collection db
      then saved save_failed db (
          insert db (record new_record {
            title = e.title;
            completed = e.completed;
            owner = caller;
            idem_key = idem_key;
          }))
      else (err no_collection, db)

  -- The record that an operation on one todo may touch.
  unfoldable pub owned : (caller id : String) → Db → Option Record
  owned caller id db = elim (find_by_id db id) [
    | none ↦ none
    | some r ↦ if foreign caller r then none else some r
  ]

  unfoldable pub get : (caller id : String) → Db → Result Todo × Db
  get caller id db = elim (owned caller id db) [
    | none ↦ (err not_found, db)
    | some r ↦ (ok (from_record r), db)
  ]

  unfoldable pub list : (caller filter : String) → Db → Result (List Todo) × Db
  list caller filter db = elim (find_by_filter db (list_filter caller filter)) [
    | none ↦ (err list_failed, db)
    | some rs ↦ (ok (map from_record rs), db)
  ]

  unfoldable pub update : (caller id : String) → List Patch → Db → Result Todo × Db
  update caller id patch db = elim (owned caller id db) [
    | none ↦ (err not_found, db)
    | some r ↦ saved update_failed db (save db (set_fields r patch))
  ]

  unfoldable pub delete : (caller id : String) → Db → Result (Unit {0}) × Db
  delete caller id db = elim (owned caller id db) [
    | none ↦ (err not_found, db)
    | some r ↦ elim (a.delete db r) [ none ↦ (err delete_failed, db) | some db' ↦ (ok tt, db') ]
  ]

  -- The loop of ClearCompleted: it stops at the first record that cannot be deleted.
  unfoldable pub delete_all : List Record → ℕ → Db → Result ℕ × Db
  delete_all [] n db = (ok n, db)
  delete_all (r ∷ rs) n db = elim (a.delete db r) [
    | none ↦ (err delete_failed, db)
    | some db' ↦ delete_all rs (n + 1) db'
  ]

  abbrev pub clear_filter : String → List Condition
  clear_filter caller = completed_is true ∷ (if caller == "" then [] else owner_is caller ∷ [])

  unfoldable pub clear_completed : (caller : String) → Db → Result ℕ × Db
  clear_completed caller db = elim (find_by_filter db (clear_filter caller)) [
    | none ↦ (err list_failed, db)
    | some rs ↦ delete_all rs 0 db
  ]

  unfoldable pub count : (caller : String) → Db → Result ℕ × Db
  count caller db = elim (find_by_filter db (if caller == "" then [] else owner_is caller ∷ [])) [
    | none ↦ (err count_failed, db)
    | some rs ↦ (ok (length rs), db)
  ]

  -- PBStore as an EntityStore.
  abbrev pub pb_store : EntityStore Db
  pb_store = record {
    create = create;
    get = get;
    list = list;
    update = update;
    delete = delete;
    clear_completed = clear_completed;
    count = count;
  }
