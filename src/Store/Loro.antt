-- ===== src/Store/Loro.antt =====
-- Loro, as far as the program relies on it: a document with one map of items. It is third-party code,
-- so it is a parameter, with its documented behaviour as laws. Every write may fail, and then it has
-- changed nothing. `Plain` is a concrete document that has the laws.
pub mod Plain
use cali_go_stack.Base.{
  ℕ, ◌≡◌, String, Bool, true, false, Option, none, some, List, [], ◌∷◌, ◌==◌, Assoc, if◌then◌else◌,
}
use cali_go_stack.Queue.Chan.{Bytes}
use cali_go_stack.Store.App.{All}

-- The map of one item, as far as it is read: a field that is missing, or of another type, is `none`.
-- Times are those that the RFC 3339 texts stand for.
pub record Item : Type 0 where
  pub title : Option String
  pub completed : Option Bool
  pub created : Option ℕ
  pub updated : Option ℕ

abbrev pub new_map : Item
new_map = record { title = none; completed = none; created = none; updated = none }

-- What is under a key: a map, or some other value.
pub data Value : Type 0 where
  child : Item → Value
  plain : Value

-- A key and the value that InsertAny gives it. No code reads the other keys.
pub data Field : Type 0 where
  title : String → Field
  completed : Bool → Field
  created updated : ℕ → Field
  unread : String → Field

abbrev pub put_field : Field → Item → Item
put_field (title t) it = record it { title = some t }
put_field (completed b) it = record it { completed = some b }
put_field (created n) it = record it { created = some n }
put_field (updated n) it = record it { updated = some n }
put_field (unread k) it = it

abbrev pub put_value : Field → Option Value → Option Value
put_value f (some (child it)) = some (child (put_field f it))
put_value f (some plain) = some plain
put_value f none = none

abbrev pub has_key : String → Assoc Value → Bool
has_key id [] = false
has_key id ((k, v) ∷ m) = if k == id then true else has_key id m

pub record Loro : Type 1 where
  pub Doc : Type 0
  pub new_doc : Doc
  -- items.Lookup and items.All
  pub find : Doc → String → Option Value
  pub all : Doc → Assoc Value
  -- items.InsertMapContainer(key, NewLoroMap())
  pub insert_map : Doc → String → Option Doc
  -- InsertAny on the map under the key
  pub insert_any : Doc → String → Field → Option Doc
  -- items.Delete
  pub delete : Doc → String → Option Doc
  pub import_updates : Doc → Bytes → Option Doc
  pub export_updates : Doc → Option Bytes

pub record LoroLaws (l : Loro) : Type 0 where
  pub find_insert_map :
      (d d' : l.Doc) (id asked : String)
      → l.insert_map d id ≡ some d'
      → l.find d' asked ≡ (if id == asked then some (child new_map) else l.find d asked)
  pub find_insert_any :
      (d d' : l.Doc) (id asked : String) (f : Field)
      → l.insert_any d id f ≡ some d'
      → l.find d' asked ≡ (if id == asked then put_value f (l.find d asked) else l.find d asked)
  pub find_delete :
      (d d' : l.Doc) (id asked : String)
      → l.delete d id ≡ some d'
      → l.find d' asked ≡ (if id == asked then none else l.find d asked)
  -- items.All gives each key with what is under it.
  pub all_found : (d : l.Doc) → All (λ kv. l.find d kv.0 ≡ some kv.1) (l.all d)
  -- And it gives every key.
  pub all_keys :
      (d : l.Doc) (id : String) (v : Value) → l.find d id ≡ some v → has_key id (l.all d) ≡ true
