-- ===== src/Store/Contract/Listed.antt =====
-- features/store/crdtstore/crdtstore.go: the items of a document that List, ClearCompleted and Count
-- go through, and what is found under each key.
use cali_go_stack.Base.{
  ℕ, suc, ◌≡◌, ◌≢◌, refl, sym, ap, String, Bool, true, false, some, none, List, [], ◌∷◌, ◌++◌, map,
  arith, ◌==◌, eq_iff, Option-cases, Bool-cases, inl, inr, Assoc, length, if◌then◌else◌,
}
use cali_go_stack.Store.Entity.{Todo, Patch, title, completed, owner, unknown}
use cali_go_stack.Store.App.{All}
use cali_go_stack.Store.Loro.{Loro, LoroLaws, Field, Value, Item, child, has_key}
use cali_go_stack.Store.Items.{
  find_item, todo_from_loro, todos_of, filtered, completed_ids, delete_ids, patch_field, or_else,
}
use cali_go_stack.Store.Crdt.Reads.{put_all}
use cali_go_stack.Store.Contract.{shown_by, listed, edited}

-- The filter of List lets the right todos through, and all of them.
pub All-filtered :
    (P : Todo → Type 0) (filter : String) (ts : List Todo)
    → All P ts
    → All (λ t. P t × (shown_by filter t ≡ true)) (filtered filter ts)
unfolding filtered
All-filtered P filter [] s = tt
All-filtered P filter (t ∷ ts) s = ground (arith, s.0, All-filtered P filter ts s.1)

listed-filtered_head :
    (filter id : String) (t : Todo) (ts : List Todo)
    → (t.id == id) ≡ true
    → shown_by filter t ≡ true
    → listed id (filtered filter (t ∷ ts)) ≡ true
unfolding filtered
listed-filtered_head filter id t ts same shown = ground arith

listed-filtered_tail :
    (filter id : String) (t : Todo) (ts : List Todo)
    → listed id (filtered filter ts) ≡ true
    → listed id (filtered filter (t ∷ ts)) ≡ true
unfolding filtered
listed-filtered_tail filter id t ts there = ground arith

-- Whether an id is among those.
abbrev pub named : String → List String → Bool
named id [] = false
named id (j ∷ js) = if j == id then true else named id js

-- A patch of an item, and of the todo that it reads as.
pub put_all-edited :
    (patch : List Patch) (now : ℕ) (it : Item) (t : Todo)
    → or_else "" it.title ≡ t.title
    → or_else false it.completed ≡ t.completed
    → (it' : Item) × (put_all (map patch_field patch ++ Field.updated now ∷ []) (some (child it))
        ≡ some (child it'))
      × (or_else "" it'.title ≡ (edited patch t).title)
      × (or_else false it'.completed ≡ (edited patch t).completed)
put_all-edited [] now it t same_title same_flag =
    (record it { updated = some now }, refl, same_title, same_flag)
put_all-edited (title s ∷ ps) now it t same_title same_flag =
    put_all-edited ps now (record it { title = some s }) (record t { title = s }) refl same_flag
put_all-edited (completed b ∷ ps) now it t same_title same_flag =
    put_all-edited ps now (record it { completed = some b }) (record t { completed = b }) same_title
      refl
put_all-edited (owner o ∷ ps) now it t same_title same_flag =
    put_all-edited ps now it t same_title same_flag
put_all-edited (unknown k ∷ ps) now it t same_title same_flag =
    put_all-edited ps now it t same_title same_flag

-- As many todos are completed as List shows under that filter.
pub length-completed_ids :
    (kvs : Assoc Value) → length (completed_ids kvs) ≡ length (filtered "completed" (todos_of kvs))
unfolding completed_ids filtered todos_of todo_from_loro
length-completed_ids [] = refl
length-completed_ids ((k, child it) ∷ kvs) = ground (arith, length-completed_ids kvs)
length-completed_ids ((k, Value.plain) ∷ kvs) = length-completed_ids kvs

module _ (l : Loro) (laws : LoroLaws l) (d : l.Doc) where
  -- The items of the document, as a run over them finds them.
  abbrev pub AreFound : Assoc Value → Type 0
  AreFound kvs = All (λ kv. l.find d kv.0 ≡ some kv.1) kvs

  -- Every entry is an item: nothing else is ever put in the map of items.
  abbrev pub AreItems : Type 0
  AreItems = (id : String) → l.find d id ≢ some Value.plain

  pub listed-todos_of :
      (filter id : String) (t : Todo) (kvs : Assoc Value)
      → AreFound kvs
      → has_key id kvs ≡ true
      → find_item l d id ≡ some t
      → shown_by filter t ≡ true
      → listed id (filtered filter (todos_of kvs)) ≡ true
  unfolding todos_of find_item todo_from_loro
  listed-todos_of filter id t [] s held found shown = cc
  listed-todos_of filter id t ((k, child it) ∷ kvs) s held found shown =
      elim (Bool-cases (k == id)) [
        | inl same ↦
            listed-filtered_head filter id (todo_from_loro k it) (todos_of kvs) same
              (ground (arith, s.0, eq_iff k id))
        | inr other ↦
            listed-filtered_tail filter id (todo_from_loro k it) (todos_of kvs)
              (listed-todos_of filter id t kvs s.1 (ground (arith, other)) found shown)
      ]
  listed-todos_of filter id t ((k, Value.plain) ∷ kvs) s held found shown =
      elim (Bool-cases (k == id)) [
        | inl same ↦ absurd (ground (arith, s.0, eq_iff k id))
        | inr other ↦ listed-todos_of filter id t kvs s.1 (ground (arith, other)) found shown
      ]

  pub length-todos_of :
      (kvs : Assoc Value)
      → AreItems
      → AreFound kvs
      → length kvs ≡ length (filtered "" (todos_of kvs))
  unfolding todos_of filtered
  length-todos_of [] plainless s = refl
  length-todos_of ((k, child it) ∷ kvs) plainless s = ap suc (length-todos_of kvs plainless s.1)
  length-todos_of ((k, Value.plain) ∷ kvs) plainless s = absurd (plainless k s.0)

  -- The ids that ClearCompleted collects are those of completed items.
  pub named-completed_ids :
      (id : String) (it : Item) (kvs : Assoc Value)
      → AreFound kvs
      → has_key id kvs ≡ true
      → l.find d id ≡ some (child it)
      → or_else false it.completed ≡ true
      → named id (completed_ids kvs) ≡ true
  unfolding completed_ids
  named-completed_ids id it [] s held found done = cc
  named-completed_ids id it ((k, child it') ∷ kvs) s held found done =
      ground (arith, s.0, eq_iff k id, named-completed_ids id it kvs s.1)
  named-completed_ids id it ((k, Value.plain) ∷ kvs) s held found done =
      ground (arith, s.0, eq_iff k id, named-completed_ids id it kvs s.1)

  pub named-completed_ids_only :
      (id : String) (it : Item) (kvs : Assoc Value)
      → AreFound kvs
      → l.find d id ≡ some (child it)
      → or_else false it.completed ≡ false
      → named id (completed_ids kvs) ≡ false
  unfolding completed_ids
  named-completed_ids_only id it [] s found open_still = refl
  named-completed_ids_only id it ((k, child it') ∷ kvs) s found open_still =
      ground (arith, s.0, eq_iff k id, named-completed_ids_only id it kvs s.1)
  named-completed_ids_only id it ((k, Value.plain) ∷ kvs) s found open_still =
      named-completed_ids_only id it kvs s.1 found open_still

pub find-delete_ids :
    (l : Loro) (laws : LoroLaws l) (ids : List String) (d d' : l.Doc) (j : String)
    → delete_ids l ids d ≡ (true, d')
    → l.find d' j ≡ (if named j ids then none else l.find d j)
unfolding delete_ids
find-delete_ids l laws [] d d' j done = ap (λ (x : Bool × l.Doc). l.find x.1 j) (sym done)
find-delete_ids l laws (id ∷ ids) d d' j done = elim (Option-cases (l.delete d id)) [
  | inl failed ↦ absurd (ground (arith, failed))
  | inr (next, deleted) ↦
      ground
        (arith, deleted, laws.find_delete d next id j deleted, find-delete_ids l laws ids next d' j)
]
