-- ===== src/Db/Seed.antt =====
-- db/seed.go: what a start leaves, on a new database and on one of an older version.
use cali_go_stack.Base.{
  ◌≡◌, refl, String, Bool, true, false, Option, none, some, List, [], ◌∷◌, ◌++◌, ◌==◌, Assoc,
  lookup, insert, lookup-insert, arith, eq_iff, Option-cases, Bool-cases, inl, inr, if◌then◌else◌,
  ap, ◌∙◌, sym,
}
use cali_go_stack.Db.{
  Field, text, relation, Collection, PocketBase, Db, has_field, set_rule, locked, todo_view_rule,
  add_idem_key_field, add_idem_key_unique_index, base_collection, todo_fields, found_or, save,
  with_owner, todos_settled, ensure_todos_collection, ensure_users_collection_rules, users_locked,
  users_unchanged, is_rule,
}

pub has_field-append :
    (name : String) (fs : List Field) (f : Field)
    → has_field name (fs ++ f ∷ []) ≡ (if has_field name fs then true else f.name == name)
has_field-append name [] f = ground arith
has_field-append name (g ∷ fs) f = ground (arith, has_field-append name fs f)

pub set_rule_lem : (rule : String) (o : Option String) → set_rule rule o ≡ some rule
set_rule_lem rule none = refl
set_rule_lem rule (some old) = ground (arith, eq_iff old rule)

insert_same {ℓ} :
    {V : Type ℓ} (k : String) (v : V) (m : Assoc V) → lookup k m ≡ some v → insert k v m ≡ m
unfolding lookup insert
insert_same k v [] h = cc
insert_same k v ((j, w) ∷ m) h = ground (arith, eq_iff j k, insert_same k v m)

module _ (pb : PocketBase) where
  is_rule_lem : (o : Option String) → is_rule pb locked o ≡ true → o ≡ some locked
  is_rule_lem none h = cc
  is_rule_lem (some old) h = ground (arith, eq_iff old locked)

  -- The collection as the seed means it: its owner's alone to see, with the two fields that the
  -- program writes.
  abbrev pub IsScoped : Collection → Type 0
  IsScoped col =
      (col.list_rule ≡ some todo_view_rule)
      × (col.view_rule ≡ some todo_view_rule)
      × (has_field "owner" col.fields ≡ true)
      × (has_field "idem_key" col.fields ≡ true)

  fields-todos_settled :
      (offline : Bool) (col : Collection)
      → (todos_settled pb offline col).fields ≡ (add_idem_key_field col).fields
  unfolding todos_settled
  fields-todos_settled false col = refl
  fields-todos_settled true col = ground arith

  pub todos_settled_keeps :
      (offline : Bool) (col : Collection) (name : String)
      → has_field name col.fields ≡ true
      → has_field name (todos_settled pb offline col).fields ≡ true
  todos_settled_keeps offline col name had = rw (fields-todos_settled offline col) (
      ground (
        arith,
        has_field-append name col.fields (record { name = "idem_key"; kind = text false 100 }),
      ))

  todos_settled_keyed :
      (offline : Bool) (col : Collection)
      → has_field "idem_key" (todos_settled pb offline col).fields ≡ true
  todos_settled_keyed offline col = rw (fields-todos_settled offline col) (
      ground (
        arith,
        has_field-append "idem_key" col.fields
            (record { name = "idem_key"; kind = text false 100 }),
        eq_iff "idem_key" "idem_key",
      ))

  todos_settled-IsScoped :
      (offline : Bool) (col : Collection)
      → has_field "owner" col.fields ≡ true
      → IsScoped (todos_settled pb offline col)
  unfolding todos_settled
  todos_settled-IsScoped offline col owned = (
    set_rule_lem todo_view_rule
        (if offline
          then add_idem_key_unique_index pb (add_idem_key_field col)
          else add_idem_key_field col).list_rule,
    set_rule_lem todo_view_rule
        (if offline
          then add_idem_key_unique_index pb (add_idem_key_field col)
          else add_idem_key_field col).view_rule,
    todos_settled_keeps offline col "owner" owned,
    todos_settled_keyed offline col,
  )

  pub with_owner-has_field :
      (db : Db) (col col' : Collection) (name : String)
      → with_owner pb db col ≡ some col'
      → (has_field "owner" col'.fields ≡ true)
        × ((if has_field name col.fields then has_field name col'.fields else true) ≡ true)
  with_owner-has_field db col col' name h = elim (Option-cases (lookup "users" db.collections)) [
    | inl missing ↦ ground (arith, missing)
    | inr (users, found) ↦ ground (
      arith,
      found,
      has_field-append "owner" col.fields (record { name = "owner"; kind = relation 1 users.id }),
      has_field-append name col.fields (record { name = "owner"; kind = relation 1 users.id }),
      eq_iff "owner" "owner",
    )
  ]

  save_true :
      (name : String) (col : Collection) (db db' : Db)
      → save pb name col db ≡ (true, db')
      → (pb.accepts name col ≡ true)
        × (db' ≡ record db { collections = insert name col db.collections })
  save_true name col db db' h = ground arith

  abbrev pub todos_of_before : Db → Collection
  todos_of_before db =
      found_or pb (base_collection pb "todos" (todo_fields pb)) (lookup "todos" db.collections)

  pub save_again :
      (name : String) (col : Collection) (db : Db)
      → pb.accepts name col ≡ true
      → lookup name db.collections ≡ some col
      → save pb name col db ≡ (true, db)
  save_again name col db accepted stored =
      ground (arith, accepted, insert_same name col db.collections stored)

  pub ensure_todos_at :
      (offline : Bool) (db : Db) (col : Collection)
      → with_owner pb db (todos_of_before db) ≡ some col
      → ensure_todos_collection pb offline db ≡ save pb "todos" (todos_settled pb offline col) db
  unfolding ensure_todos_collection
  ensure_todos_at offline db col owned =
      ap
        (λ (o : Option Collection). elim o as (λ _. Bool × Db) [
          | none ↦ (false, db)
          | some c ↦ save pb "todos" (todos_settled pb offline c) db
        ])
        owned

  pub saved :
      (offline : Bool) (db db' : Db)
      → ensure_todos_collection pb offline db ≡ (true, db')
      → (col : Collection) × (with_owner pb db (todos_of_before db) ≡ some col)
        × ((pb.accepts "todos" (todos_settled pb offline col) ≡ true)
            × (db' ≡ record db {
              collections = insert "todos" (todos_settled pb offline col) db.collections;
            }))
  unfolding ensure_todos_collection
  saved offline db db' h = elim (Option-cases (with_owner pb db (todos_of_before db))) [
    | inl none_owned ↦ ground (arith, none_owned)
    | inr (col, owned) ↦ (
      col,
      owned,
      save_true "todos" (todos_settled pb offline col) db db'
          (sym (ensure_todos_at offline db col owned) ∙ h),
    )
  ]

  -- Where the todos are made sure of, on a new database or an older one, they have in the end the
  -- rules that let an account see only its own, and the fields `owner` and `idem_key`, and each field
  -- that the collection had before, or that the seed gives a new one.
  pub ensure_todos_scopes :
      (offline : Bool) (db db' : Db) (name : String)
      → ensure_todos_collection pb offline db ≡ (true, db')
      → has_field name (todos_of_before db).fields ≡ true
      → (col : Collection) × (lookup "todos" db'.collections ≡ some col)
        × IsScoped col
        × (has_field name col.fields ≡ true)
  ensure_todos_scopes offline db db' name h had =
      let (col, owned, (accepted, written)) = saved offline db db' h in
      let (owner, kept) = with_owner-has_field db (todos_of_before db) col name owned in
      (
        todos_settled pb offline col,
        ground (
          arith,
          written,
          lookup-insert "todos" "todos" (todos_settled pb offline col) db.collections,
          eq_iff "todos" "todos",
        ),
        todos_settled-IsScoped offline col owner,
        todos_settled_keeps offline col name (ground (arith, kept, had)),
      )

  -- Where the rules of the collection of users are made sure of, only a superuser may create or
  -- delete an account.
  pub ensure_users_locks :
      (db db' : Db) (old : Collection)
      → lookup "users" db.collections ≡ some old
      → ensure_users_collection_rules pb db ≡ (true, db')
      → (col : Collection) × (lookup "users" db'.collections ≡ some col)
        × (col.create_rule ≡ some locked)
        × (col.delete_rule ≡ some locked)
  unfolding ensure_users_collection_rules
  ensure_users_locks db db' old found h = elim (Bool-cases (users_unchanged pb old)) [
    | inl same ↦ (
      old,
      ground (arith, found, same),
      is_rule_lem old.create_rule (ground (arith, same)),
      is_rule_lem old.delete_rule (ground (arith, same)),
    )
    | inr changes ↦ (
      users_locked pb old,
      ground (
        arith,
        found,
        changes,
        lookup-insert "users" "users" (users_locked pb old) db.collections,
        eq_iff "users" "users",
      ),
      set_rule_lem locked old.create_rule,
      set_rule_lem locked old.delete_rule,
    )
  ]
