-- ===== src/Store/Items.antt =====
-- features/store/crdtstore/crdtstore.go: the items of an owner's document, as todos are written to it and
-- read from it.
use cali_go_stack.Base.{
  ℕ, ◌*◌, ◌/◌, ◌^◌, String, Bool, true, false, Option, none, some, List, [], ◌∷◌, ◌==◌, Assoc,
  nat_eq, if◌then◌else◌,
}
use cali_go_stack.Store.Entity.{Todo, Patch}
use cali_go_stack.Store.App.{Record}
use cali_go_stack.Store.Loro.{Loro, Item, Value, child, Field, unread}

-- A time as an RFC 3339 text without fractions keeps it.
abbrev pub to_second : ℕ → ℕ
to_second n = n / 10 ^ 9 * 10 ^ 9

abbrev pub stamp : (now given : ℕ) → ℕ
stamp now given = if nat_eq given 0 then to_second now else to_second given

abbrev pub item_fields : ℕ → Todo → List Field
item_fields now t =
    unread t.id
    ∷ Field.title t.title
    ∷ Field.completed t.completed
    ∷ Field.created (stamp now t.created)
    ∷ Field.updated (stamp now t.updated)
    ∷ []

abbrev pub or_else {ℓ} : {A : Type ℓ} → A → Option A → A
or_else x none = x
or_else x (some y) = y

unfoldable pub todo_from_loro : String → Item → Todo
todo_from_loro id it = record {
  id = id;
  title = or_else "" it.title;
  completed = or_else false it.completed;
  created = or_else 0 it.created;
  updated = or_else 0 it.updated;
}

-- The todo of a record, as it is written into a document: under the record's key.
abbrev pub todo_from_record : Record → Todo
todo_from_record r = record {
  id = r.id;
  title = r.title;
  completed = r.completed;
  created = r.created;
  updated = r.updated;
}

abbrev pub item_of : Option Value → Option Item
item_of (some (child it)) = some it
item_of (some Value.plain) = none
item_of none = none

abbrev pub todo_at : String → Option Item → Option Todo
todo_at id none = none
todo_at id (some it) = some (todo_from_loro id it)

unfoldable pub todos_of : Assoc Value → List Todo
todos_of [] = []
todos_of ((id, v) ∷ m) =
    let rest = todos_of m in
    elim (item_of (some v)) [ none ↦ rest | some it ↦ todo_from_loro id it ∷ rest ]

-- The todos that a filter lets through.
unfoldable pub filtered : String → List Todo → List Todo
filtered filter [] = []
filtered filter (t ∷ ts) =
    let rest = filtered filter ts in
    if filter == "active"
    then (if t.completed then rest else t ∷ rest)
    else if filter == "completed"
    then (if t.completed then t ∷ rest else rest)
    else t ∷ rest

unfoldable pub completed_ids : Assoc Value → List String
completed_ids [] = []
completed_ids ((id, v) ∷ m) =
    let rest = completed_ids m in
    elim (item_of (some v)) [
      | none ↦ rest
      | some it ↦ if or_else false it.completed then id ∷ rest else rest
    ]

abbrev pub patch_field : Patch → Field
patch_field (Patch.title t) = Field.title t
patch_field (Patch.completed b) = Field.completed b
patch_field (Patch.owner o) = unread o
patch_field (Patch.unknown k) = unread k

module _ (l : Loro) where
  open l use {Doc}

  -- A run of InsertAny on one map, up to the first that fails.
  unfoldable pub write_fields : String → List Field → Doc → Bool × Doc
  write_fields id [] d = (true, d)
  write_fields id (f ∷ fs) d = elim (l.insert_any d id f) [
    | none ↦ (false, d)
    | some d' ↦ write_fields id fs d'
  ]

  unfoldable pub find_item : Doc → String → Option Todo
  find_item d id = todo_at id (item_of (l.find d id))

  abbrev pub written : Bool × Doc → Option Doc
  written (true, d) = some d
  written (false, d) = none

  -- The loop of `doc` over the records that it loads.
  unfoldable pub rehydrate : ℕ → List Record → Doc → Option Doc
  rehydrate now [] d = some d
  rehydrate now (r ∷ rs) d = elim (l.insert_map d r.idem_key) [
    | none ↦ none
    | some d1 ↦ elim (written (write_fields r.idem_key (item_fields now (todo_from_record r)) d1)) [
      | none ↦ none
      | some d2 ↦ rehydrate now rs d2
    ]
  ]

  -- The loop of ClearCompleted: it stops at the first id that cannot be deleted.
  unfoldable pub delete_ids : List String → Doc → Bool × Doc
  delete_ids [] d = (true, d)
  delete_ids (id ∷ ids) d = elim (l.delete d id) [ none ↦ (false, d) | some d' ↦ delete_ids ids d' ]
