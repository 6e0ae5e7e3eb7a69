-- ===== src/Db/Again.antt =====
-- db/seed.go: a second start after one that succeeded.
use cali_go_stack.Base.{
  ◌≡◌, refl, String, Bool, true, false, some, List, [], ◌∷◌, ◌++◌, lookup, lookup-insert, arith,
  eq_iff, if◌then◌else◌, ap, ◌∙◌, sym,
}
use cali_go_stack.Db.{
  Field, text, Collection, PocketBase, Db, has_field, has_index, todo_view_rule, save,
  todos_settled, ensure_todos_collection,
}
use cali_go_stack.Db.Seed.{
  has_field-append, set_rule_lem, todos_settled_keeps, with_owner-has_field, save_again,
  ensure_todos_at, saved, todos_of_before,
}

module _ (pb : PocketBase) where
  -- The two parts of todos_settled that read the collection.
  abbrev keyed : List Field → List Field
  keyed fs =
      if has_field "idem_key" fs
      then fs
      else fs ++ record { name = "idem_key"; kind = text false 100 } ∷ []

  abbrev indexed : Bool → List String → List String
  indexed false sqls = sqls
  indexed true sqls =
      if has_index pb "idem_key_owner_idx" sqls
      then sqls
      else pb.add_index "idem_key_owner_idx" true "idem_key,owner" "" sqls

  abbrev shaped : Bool → Collection → Collection
  shaped offline col = record col {
    fields = keyed col.fields;
    indexes = indexed offline col.indexes;
    list_rule = some todo_view_rule;
    view_rule = some todo_view_rule;
  }

  todos_settled-shaped :
      (offline : Bool) (col : Collection) → todos_settled pb offline col ≡ shaped offline col
  unfolding todos_settled
  todos_settled-shaped false col =
      ground (
        arith,
        set_rule_lem todo_view_rule col.list_rule,
        set_rule_lem todo_view_rule col.view_rule,
      )
  todos_settled-shaped true col =
      ground (
        arith,
        set_rule_lem todo_view_rule col.list_rule,
        set_rule_lem todo_view_rule col.view_rule,
      )

  keyed_again : (fs : List Field) → keyed (keyed fs) ≡ keyed fs
  keyed_again fs = ground (
    arith,
    has_field-append "idem_key" fs (record { name = "idem_key"; kind = text false 100 }),
    eq_iff "idem_key" "idem_key",
  )

  -- Adding the index once more changes nothing: PocketBase first drops the index of that name.
  module _
      (again : (indexes : List String)
        → pb.add_index "idem_key_owner_idx" true "idem_key,owner" ""
            (pb.add_index "idem_key_owner_idx" true "idem_key,owner" "" indexes)
          ≡ pb.add_index "idem_key_owner_idx" true "idem_key,owner" "" indexes) where
    indexed_again :
        (offline : Bool) (sqls : List String)
        → indexed offline (indexed offline sqls) ≡ indexed offline sqls
    indexed_again false sqls = refl
    indexed_again true sqls = ground (arith, again sqls)

    settled_again :
        (offline : Bool) (col : Collection)
        → shaped offline (shaped offline col) ≡ shaped offline col
    settled_again offline col =
        ground (arith, keyed_again col.fields, indexed_again offline col.indexes)

    todos_settled_again :
        (offline : Bool) (col : Collection)
        → todos_settled pb offline (todos_settled pb offline col) ≡ todos_settled pb offline col
    todos_settled_again offline col =
        ap (todos_settled pb offline) (todos_settled-shaped offline col)
        ∙ todos_settled-shaped offline (shaped offline col)
        ∙ settled_again offline col
        ∙ sym (todos_settled-shaped offline col)

    -- Where a start has made sure of the todos, the next one finds them as they should be, and saves
    -- them as they are.
    pub ensure_todos_again :
        (offline : Bool) (db db' : Db)
        → ensure_todos_collection pb offline db ≡ (true, db')
        → ensure_todos_collection pb offline db' ≡ (true, db')
    ensure_todos_again offline db db' h =
        let (col, owned, (accepted, written)) = saved pb offline db db' h in
        let kept = todos_settled pb offline col in
        let stored : lookup "todos" db'.collections ≡ some kept = ground (
          arith,
          written,
          lookup-insert "todos" "todos" kept db.collections,
          eq_iff "todos" "todos",
        ) in
        let owner : has_field "owner" kept.fields ≡ true =
          todos_settled_keeps pb offline col "owner"
            (with_owner-has_field pb db (todos_of_before pb db) col "owner" owned).0 in
        ensure_todos_at pb offline db' kept (ground (arith, stored, owner))
        ∙ ap (λ (c : Collection). save pb "todos" c db') (todos_settled_again offline col)
        ∙ save_again pb "todos" kept db' accepted stored
