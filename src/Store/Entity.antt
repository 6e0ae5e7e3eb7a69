-- ===== src/Store/Entity.antt =====
-- features/store/store.go and features/todo/models.go: the todo, the errors of a strategy and the
-- interface that every strategy implements.
use cali_go_stack.Base.{ℕ, String, Bool, List}

-- Times are numbers of nanoseconds; Go's zero time is 0.
pub record Todo : Type 0 where
  pub id : String
  pub title : String
  pub completed : Bool
  pub created : ℕ
  pub updated : ℕ

-- store.ErrNotFound, and the errors that a strategy wraps, by the step that failed.
pub data Error : Type 0 where
  not_found : Error
  no_collection save_failed list_failed update_failed delete_failed count_failed : Error
  empty_owner empty_id load_failed insert_failed write_failed patch_failed : Error
  find_failed created_missing import_failed : Error

pub data Result {ℓ} (A : Type ℓ) : Type ℓ where
  ok : A → Result A
  err : Error → Result A

-- The entries of a patch, `map[string]any`.
pub data Patch : Type 0 where
  title : String → Patch
  completed : Bool → Patch
  owner : String → Patch
  unknown : String → Patch

-- EntityStore[todo.Todo], over the state that the strategy keeps. What an operation wrote before it
-- failed stays written, so the state comes back beside the error.
pub record EntityStore (S : Type 0) : Type 0 where
  pub create : Todo → (owner idem_key : String) → S → Result Todo × S
  pub get : (owner id : String) → S → Result Todo × S
  pub list : (owner filter : String) → S → Result (List Todo) × S
  pub update : (owner id : String) → List Patch → S → Result Todo × S
  pub delete : (owner id : String) → S → Result (Unit {0}) × S
  pub clear_completed : (owner : String) → S → Result ℕ × S
  pub count : (owner : String) → S → Result ℕ × S
