-- ===== src/Store/Pb/Isolation.antt =====
-- Who may touch a record: the owner, anybody where the record has no owner, and a caller without an
-- identity.
use cali_go_stack.Base.{◌≡◌, ◌≢◌, String, some, none, List, arith, eq_iff}
use cali_go_stack.Store.Entity.{Patch, ok, err, not_found}
use cali_go_stack.Store.App.{App, Record}
use cali_go_stack.Store.Pb.{foreign, owned, get, update, delete, from_record}

module _ (a : App) where
  open a use {Db, find_by_id}

  -- A stored record that has an owner is not there for another caller who has an identity:
  -- reading, patching and deleting it all answer that it is not found, and change nothing.
  pub foreign_not_found :
      (db : Db) (caller id : String) (patch : List Patch) (r : Record)
      → find_by_id db id ≡ some r
      → r.owner ≢ ""
      → caller ≢ ""
      → r.owner ≢ caller
      → (get a caller id db ≡ (err not_found, db))
        × (update a caller id patch db ≡ (err not_found, db))
        × (delete a caller id db ≡ (err not_found, db))
  unfolding get update delete owned foreign
  foreign_not_found db caller id patch r found some_owner some_caller other =
      ground (arith, eq_iff caller "", eq_iff r.owner "", eq_iff r.owner caller)

  -- So it is for an id that has no record, and the two cases cannot be told apart.
  pub missing_not_found :
      (db : Db) (caller id : String) (patch : List Patch)
      → find_by_id db id ≡ none
      → (get a caller id db ≡ (err not_found, db))
        × (update a caller id patch db ≡ (err not_found, db))
        × (delete a caller id db ≡ (err not_found, db))
  unfolding get update delete owned
  missing_not_found db caller id patch found = ground arith

  -- A caller without an identity is held back from nothing: it reads every record there is, and a
  -- delete of it is refused only where PocketBase itself refuses.
  pub anonymous_unscoped :
      (db : Db) (id : String) (r : Record)
      → find_by_id db id ≡ some r
      → (get a "" id db ≡ (ok (from_record r), db)) × (owned a "" id db ≡ some r)
  unfolding get owned foreign
  anonymous_unscoped db id r found = ground (arith, eq_iff "" "")
