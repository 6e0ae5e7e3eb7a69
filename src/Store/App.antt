-- ===== src/Store/App.antt =====
-- PocketBase, as far as the program relies on it: the `todos` collection behind `core.App`. It is
-- third-party code, so it is a parameter, with its documented behaviour as laws. Every operation
-- may fail. `Table` is a concrete collection that has the laws.
pub mod Table
use cali_go_stack.Base.{
  ℕ, ◌≡◌, ◌≢◌, String, Bool, true, false, Option, none, some, List, [], ◌∷◌, ◌==◌, ◌&&◌, not,
  if◌then◌else◌,
}

-- A record of the collection. An empty id is one that PocketBase still has to choose.
pub record Record : Type 0 where
  pub id : String
  pub owner : String
  pub idem_key : String
  pub title : String
  pub completed : Bool
  pub created : ℕ
  pub updated : ℕ

-- core.NewRecord
abbrev pub new_record : Record
new_record = record {
  id = "";
  owner = "";
  idem_key = "";
  title = "";
  completed = false;
  created = 0;
  updated = 0;
}

-- The clauses of the filter expressions that the program builds; an expression is their conjunction.
pub data Condition : Type 0 where
  completed_is : Bool → Condition
  owner_is : String → Condition
  idem_key_is : String → Condition

abbrev bool_eq : Bool → Bool → Bool
bool_eq true b = b
bool_eq false b = not b

abbrev pub satisfies : Record → Condition → Bool
satisfies r (completed_is b) = bool_eq r.completed b
satisfies r (owner_is o) = r.owner == o
satisfies r (idem_key_is k) = r.idem_key == k

abbrev pub matches : Record → List Condition → Bool
matches r [] = true
matches r (c ∷ cs) = satisfies r c && matches r cs

abbrev pub All {ℓ κ} : {A : Type ℓ} → (A → Type κ) → List A → Type κ
All P [] = Unit
All P (x ∷ xs) = P x × All P xs

-- The id is among the records'.
abbrev pub has_id : String → List Record → Bool
has_id id [] = false
has_id id (r ∷ rs) = if r.id == id then true else has_id id rs

-- Whether a write fails depends on the tables alone: the same write on the same tables ends the same way.
pub record App : Type 1 where
  pub Db : Type 0
  -- FindCollectionByNameOrId("todos"): whether it is there.
  pub find_collection : Db → Bool
  -- FindRecordById
  pub find_by_id : Db → String → Option Record
  -- FindRecordsByFilter, without a limit; `none` is an error.
  pub find_by_filter : Db → List Condition → Option (List Record)
  -- FindFirstRecordByFilter: `none` where no record matches, or on an error.
  pub find_first : Db → List Condition → Option Record
  -- FindRecordsByFilter with a limit, the newest record first or in no order. No match is no error.
  pub find_page : Db → List Condition → (newest_first : Bool) → (limit : ℕ) → Option (List Record)
  -- Save of a new record: the record as it is stored. `none` is an error, and then nothing is stored.
  pub insert : Db → Record → Option (Record × Db)
  -- Save of a record that was read before.
  pub save : Db → Record → Option (Record × Db)
  pub delete : Db → Record → Option Db

-- The record that Save stores is the one it was given, with an id and stamps of PocketBase's own
-- where it had none.
pub record Stores (given stored : Record) : Type 0 where
  pub owner : stored.owner ≡ given.owner
  pub idem_key : stored.idem_key ≡ given.idem_key
  pub title : stored.title ≡ given.title
  pub completed : stored.completed ≡ given.completed
  pub id : given.id ≢ "" → stored.id ≡ given.id

pub record Laws (a : App) : Type 0 where
  pub find_id : (db : a.Db) (id : String) (r : Record) → a.find_by_id db id ≡ some r → r.id ≡ id
  pub insert_stores :
      (db db' : a.Db) (r stored : Record) → a.insert db r ≡ some (stored, db') → Stores r stored
  -- A new record's id is one that no record has, given or chosen.
  pub insert_fresh :
      (db db' : a.Db) (r stored : Record)
      → a.insert db r ≡ some (stored, db')
      → a.find_by_id db stored.id ≡ none
  pub find_insert :
      (db db' : a.Db) (r stored : Record) (id : String)
      → a.insert db r ≡ some (stored, db')
      → a.find_by_id db' id ≡ (if stored.id == id then some stored else a.find_by_id db id)
  -- The unique index on (idem_key, owner), for keys that are not empty.
  pub insert_unique :
      (db : a.Db) (r old : Record)
      → a.find_by_id db old.id ≡ some old
      → old.idem_key ≡ r.idem_key
      → old.owner ≡ r.owner
      → r.idem_key ≢ ""
      → a.insert db r ≡ none
  pub save_stores :
      (db db' : a.Db) (r stored : Record) → a.save db r ≡ some (stored, db') → Stores r stored
  pub find_save :
      (db db' : a.Db) (r stored : Record) (id : String)
      → a.save db r ≡ some (stored, db')
      → a.find_by_id db' id ≡ (if stored.id == id then some stored else a.find_by_id db id)
  pub find_delete :
      (db db' : a.Db) (r : Record) (id : String)
      → a.delete db r ≡ some db'
      → a.find_by_id db' id ≡ (if r.id == id then none else a.find_by_id db id)
  -- A query returns stored records that match, and all of them.
  pub filter_sound :
      (db : a.Db) (cs : List Condition) (rs : List Record)
      → a.find_by_filter db cs ≡ some rs
      → All (λ r. (a.find_by_id db r.id ≡ some r) × (matches r cs ≡ true)) rs
  pub find_first_sound :
      (db : a.Db) (cs : List Condition) (r : Record)
      → a.find_first db cs ≡ some r
      → (a.find_by_id db r.id ≡ some r) × (matches r cs ≡ true)
  pub filter_complete :
      (db : a.Db) (cs : List Condition) (rs : List Record) (r : Record)
      → a.find_by_filter db cs ≡ some rs
      → a.find_by_id db r.id ≡ some r
      → matches r cs ≡ true
      → has_id r.id rs ≡ true
