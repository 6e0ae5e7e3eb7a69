-- ===== src/Db.antt =====
-- db/seed.go and db/idempotency_seed.go: the collections and the account that every start of the
-- server makes sure of. PocketBase keeps the collections by name; what it does with an index, which
-- fields a new collection has and which collections it refuses are parameters. Logs are left out.
pub mod Seed
pub mod Again
use cali_go_stack.Base.{
  ℕ, String, Bool, true, false, ◌&&◌, ◌||◌, not, Option, none, some, List, [], ◌∷◌, ◌++◌, ◌==◌,
  Assoc, lookup, insert, if◌then◌else◌,
}

pub data Kind : Type 0 where
  text : (required : Bool) (max : ℕ) → Kind
  bool date number : Kind
  relation : (max_select : ℕ) (collection : String) → Kind

pub record Field : Type 0 where
  pub name : String
  pub kind : Kind

-- A rule is nil or an expression; an index is its SQL text.
pub record Collection : Type 0 where
  pub id : String
  pub fields : List Field
  pub indexes : List String
  pub list_rule : Option String
  pub view_rule : Option String
  pub create_rule : Option String
  pub delete_rule : Option String

-- `add_index name unique columns condition`, whether an index's text has a name in double quotes, and
-- the id and the fields that core.NewBaseCollection gives.
pub record PocketBase : Type 0 where
  pub new_id : String → String
  pub base_fields : List Field
  pub add_index : String → Bool → String → String → List String → List String
  pub quotes : (sql name : String) → Bool
  pub accepts : String → Collection → Bool
  pub accepts_user : (email password : String) → Bool

-- The collections, and the passwords of the accounts by email.
pub record Db : Type 0 where
  pub collections : Assoc Collection
  pub accounts : Assoc String

abbrev pub demo_user_email : String
demo_user_email = "demo@demo.app"

abbrev pub demo_user_password : String
demo_user_password = "demo1234456"

abbrev pub todo_view_rule : String
todo_view_rule = "@request.auth.id != '' && owner = @request.auth.id"

abbrev pub wb_view_rule : String
wb_view_rule = "@request.auth.id != ''"

abbrev pub locked : String
locked = "@request.auth.superuser = true"

abbrev pub own_or_superuser : String
own_or_superuser = "@request.auth.superuser = true || @request.auth.id = @id"

-- Fields.GetByName
abbrev pub has_field : String → List Field → Bool
has_field name [] = false
has_field name (f ∷ fs) = f.name == name || has_field name fs

-- `if r == nil || *r != rule { r = &rule }`
abbrev pub set_rule : String → Option String → Option String
set_rule rule none = some rule
set_rule rule (some old) = if old == rule then some old else some rule

abbrev pub add_idem_key_field : Collection → Collection
add_idem_key_field col = if has_field "idem_key" col.fields then col else record col {
  fields = col.fields ++ record { name = "idem_key"; kind = text false 100 } ∷ [];
}

module _ (pb : PocketBase) where
  abbrev pub has_index : String → List String → Bool
  has_index name [] = false
  has_index name (sql ∷ rest) = pb.quotes sql name || has_index name rest

  abbrev pub add_idem_key_unique_index : Collection → Collection
  add_idem_key_unique_index col =
      if has_index "idem_key_owner_idx" col.indexes then col else record col {
        indexes = pb.add_index "idem_key_owner_idx" true "idem_key,owner" "" col.indexes;
      }

  -- core.NewBaseCollection, with the fields added.
  abbrev pub base_collection : String → List Field → Collection
  base_collection name fields = record {
    id = pb.new_id name;
    fields = pb.base_fields ++ fields;
    indexes = [];
    list_rule = none;
    view_rule = none;
    create_rule = none;
    delete_rule = none;
  }

  abbrev pub todo_fields : List Field
  todo_fields =
      record { name = "title"; kind = text true 0 }
      ∷ record { name = "completed"; kind = bool }
      ∷ record { name = "created"; kind = date }
      ∷ record { name = "updated"; kind = date }
      ∷ []

  abbrev pub whiteboard_fields : List Field
  whiteboard_fields =
      record { name = "doc_id"; kind = text true 0 }
      ∷ record { name = "snapshot"; kind = text false 0 }
      ∷ record { name = "version"; kind = number }
      ∷ record { name = "updated"; kind = date }
      ∷ []

  abbrev pub found_or : Collection → Option Collection → Collection
  found_or new none = new
  found_or new (some old) = old

  -- app.Save, with whether it succeeds.
  abbrev pub save : String → Collection → Db → Bool × Db
  save name col db =
      if pb.accepts name col
      then (true, record db { collections = insert name col db.collections })
      else (false, db)

  -- The owner relation where it is missing; `none` where there is no collection of users.
  abbrev pub with_owner : Db → Collection → Option Collection
  with_owner db col =
      if has_field "owner" col.fields then some col else elim (lookup "users" db.collections) [
        | none ↦ none
        | some users ↦ some (record col {
          fields = col.fields ++ record { name = "owner"; kind = relation 1 users.id } ∷ [];
        })
      ]

  -- What is done to the collection once it has its owner.
  unfoldable pub todos_settled : Bool → Collection → Collection
  todos_settled offline col =
      let keyed = add_idem_key_field col in
      let indexed = if offline then add_idem_key_unique_index keyed else keyed in
      record indexed {
        list_rule = set_rule todo_view_rule indexed.list_rule;
        view_rule = set_rule todo_view_rule indexed.view_rule;
      }

  -- Each returns whether its error is nil.
  unfoldable pub ensure_todos_collection : (offline : Bool) → Db → Bool × Db
  ensure_todos_collection offline db =
      elim (with_owner db
        (found_or (base_collection "todos" todo_fields) (lookup "todos" db.collections))) [
          | none ↦ (false, db)
          | some col ↦ save "todos" (todos_settled offline col) db
        ]

  abbrev pub whiteboards_settled : Collection → Collection
  whiteboards_settled col = record col {
    list_rule = set_rule wb_view_rule col.list_rule;
    view_rule = set_rule wb_view_rule col.view_rule;
  }

  unfoldable pub ensure_whiteboards_collection : Db → Bool × Db
  ensure_whiteboards_collection db =
      save "whiteboards"
        (whiteboards_settled (
          found_or (base_collection "whiteboards" whiteboard_fields)
            (lookup "whiteboards" db.collections)))
        db

  -- A demo account that is there gets its password again.
  unfoldable pub ensure_demo_user : Db → Bool × Db
  ensure_demo_user db = elim (lookup "users" db.collections) [
    | none ↦ (true, db)
    | some _ ↦
        if pb.accepts_user demo_user_email demo_user_password
        then (true, record db { accounts = insert demo_user_email demo_user_password db.accounts })
        else (false, db)
  ]

  -- `if r == nil || *r == "" { r = &rule }`
  abbrev pub default_rule : String → Option String → Option String
  default_rule rule none = some rule
  default_rule rule (some old) = if old == "" then some rule else some old

  abbrev pub is_rule : String → Option String → Bool
  is_rule rule none = false
  is_rule rule (some old) = old == rule

  abbrev pub is_set : Option String → Bool
  is_set none = false
  is_set (some old) = not (old == "")

  abbrev pub users_locked : Collection → Collection
  users_locked col = record col {
    create_rule = set_rule locked col.create_rule;
    delete_rule = set_rule locked col.delete_rule;
    list_rule = default_rule own_or_superuser col.list_rule;
  }

  abbrev pub users_unchanged : Collection → Bool
  users_unchanged col =
      is_rule locked col.create_rule && is_rule locked col.delete_rule && is_set col.list_rule

  unfoldable pub ensure_users_collection_rules : Db → Bool × Db
  ensure_users_collection_rules db = elim (lookup "users" db.collections) [
    | none ↦ (true, db)
    | some col ↦ if users_unchanged col then (true, db) else save "users" (users_locked col) db
  ]

  -- The callback on serve: each error is logged, and the next step is taken.
  unfoldable pub seed_on_serve : (offline : Bool) → Db → Db
  seed_on_serve offline db =
      let todos = (ensure_todos_collection offline db).1 in
      let demo = (ensure_demo_user todos).1 in
      let users = (ensure_users_collection_rules demo).1 in (ensure_whiteboards_collection users).1
