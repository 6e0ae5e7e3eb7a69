-- ===== src/Store/Crdt/Scope.antt =====
-- What an operation for one owner does to the documents of others.
use cali_go_stack.Base.{
  ℕ, ◌+◌, ◌%◌, ◌^◌, ◌≡◌, ◌≢◌, refl, ap, ◌∙◌, String, Bool, true, false, Option, some, none, List,
  [], ◌∷◌, ◌++◌, map, arith, eq_iff, lookup, lookup-insert, Bool-cases, Option-cases, inl, inr,
  nat_eq, length,
}
use cali_go_stack.Queue.Chan.{Bytes}
use cali_go_stack.Store.Entity.{Todo, Error, Patch, not_found, created_missing}
use cali_go_stack.Store.App.{App}
use cali_go_stack.Store.Loro.{Loro, Field}
use cali_go_stack.Store.Items.{
  find_item, item_fields, write_fields, item_of, delete_ids, completed_ids, patch_field,
}
use cali_go_stack.Store.Crdt.{
  Wired, OpId, Crdt, version, put_doc, bump_version, publish_op, doc, persist, read_back, created,
  create_in, create, get, list, count, create_op, update_op, updated, update, announce, delete_in,
  delete, cleared, clear_completed, applied, apply_remote_op, delete_op, clear_op,
}
use cali_go_stack.Store.Crdt.Docs.{doc-Held, persist-Held, publish_op-keeps, stored_doc}

-- One owner's document and version are the same in two states.
abbrev pub Same : {a : App} → {l : Loro} → String → Crdt a l → Crdt a l → Type 0
Same owner s s' =
    (lookup owner s'.docs ≡ lookup owner s.docs)
    × (lookup owner s'.versions ≡ lookup owner s.versions)

module _ (a : App) (l : Loro) (e : Wired) (owner other : String) (apart : other ≢ owner) where
  open l use {Doc}

  doc-Same :
      (now : ℕ) (s s' : Crdt a l) (d : Doc) → doc a l e now owner s ≡ some (d, s') → Same other s s'
  doc-Same now s s' d loaded =
      let (held, versions, db, others) = doc-Held a l e now owner s s' d loaded in
      (others other apart, ap (lookup other) versions)

  put_doc-Same : (d : Doc) (s : Crdt a l) → Same other s (put_doc owner d s)
  put_doc-Same d s = (ground (arith, lookup-insert owner other d s.docs, eq_iff owner other), refl)

  stored_doc-Same : (d : Doc) (s : Crdt a l) → Same other s (stored_doc a l e owner d s)
  stored_doc-Same d s = (persist-Held a l e owner d s).2 other apart

  bump_version-Same : (s : Crdt a l) → Same other s (bump_version a l e owner s)
  unfolding bump_version
  bump_version-Same s = (
    refl,
    ground (
      arith,
      lookup-insert owner other ((version owner s + 1) % 2 ^ 64) s.versions,
      eq_iff owner other,
    ),
  )

  publish_op-Same :
      (op : OpId) (d : Doc) (s : Crdt a l) → Same other s (publish_op a l e owner op d s)
  publish_op-Same op d s =
      let kept = publish_op-keeps a l e owner op d s in
      (ap (lookup other) kept.0, ap (lookup other) kept.1)

  Same-trans : (s s' s'' : Crdt a l) → Same other s s' → Same other s' s'' → Same other s s''
  Same-trans s s' s'' p q = (q.0 ∙ p.0, q.1 ∙ p.1)

  read_back-Same :
      (s : Crdt a l) (op : OpId) (id : String) (d : Doc) (missing : Error)
      (x : Option Error × Crdt a l)
      → Same other s x.1
      → Same other s (read_back a l e owner op id d missing x).1
  read_back-Same s op id d missing (some failed, s1) same = same
  read_back-Same s op id d missing (none, s1) same =
      let next = Same-trans s s1 (publish_op a l e owner op d s1) same (publish_op-Same op d s1) in
      elim (Option-cases (find_item l d id)) [
        | inl absent ↦ ground (arith, absent, next)
        | inr (t, found) ↦ ground (arith, found, next)
      ]

  announce-Same {ℓ} :
      {R : Type ℓ}
      → (s : Crdt a l) (r : R) (op : OpId) (d : Doc) (x : Option Error × Crdt a l)
      → Same other s x.1
      → Same other s (announce a l e r owner op d x).1
  announce-Same s r op d (some failed, s1) same = same
  announce-Same s r op d (none, s1) same =
      Same-trans s s1 (publish_op a l e owner op d s1) same (publish_op-Same op d s1)

  created-Same :
      (t : Todo) (x : Bool × Doc) (s : Crdt a l) → Same other s (created a l e owner t x s).1
  created-Same t (false, d) s = put_doc-Same d s
  created-Same t (true, d) s =
      read_back-Same s (create_op t.id) t.id d created_missing _ (stored_doc-Same d s)

  create_in-Same :
      (now : ℕ) (t : Todo) (d : Doc) (s : Crdt a l)
      → Same other s (create_in a l e now owner t d s).1
  create_in-Same now t d s = elim (Option-cases (find_item l d t.id)) [
    | inr (old, found) ↦ ground (arith, found)
    | inl absent ↦ elim (Option-cases (l.insert_map d t.id)) [
      | inl failed ↦ ground (arith, absent, failed)
      | inr (d1, inserted) ↦
          let next = created-Same t (write_fields l t.id (item_fields now t) d1) s in
          ground (arith, absent, inserted, next)
    ]
  ]

  updated-Same :
      (id : String) (x : Bool × Doc) (s : Crdt a l) → Same other s (updated a l e owner id x s).1
  updated-Same id (false, d) s = put_doc-Same d s
  updated-Same id (true, d) s =
      read_back-Same s (update_op id) id d not_found _ (stored_doc-Same d s)

  delete_in-Same :
      (id : String) (d : Doc) (s : Crdt a l) → Same other s (delete_in a l e owner id d s).1
  delete_in-Same id d s = elim (Option-cases (l.find d id)) [
    | inl absent ↦ ground (arith, absent)
    | inr (v, found) ↦ elim (Option-cases (l.delete d id)) [
      | inl failed ↦ ground (arith, found, failed)
      | inr (d', deleted) ↦
          let next =
            announce-Same {0} s (tt {0}) (delete_op id) d'
              (persist a l e owner d' (put_doc owner d' s)) (stored_doc-Same d' s) in
          ground (arith, found, deleted, next)
    ]
  ]

  cleared-Same :
      (n : ℕ) (x : Bool × Doc) (s : Crdt a l) → Same other s (cleared a l e owner n x s).1
  cleared-Same n (false, d) s = put_doc-Same d s
  cleared-Same n (true, d) s = elim (Bool-cases (nat_eq n 0)) [
    | inl nothing ↦ ground (arith, nothing, put_doc-Same d s)
    | inr some_done ↦
        let next =
          announce-Same s n clear_op d (persist a l e owner d (put_doc owner d s))
            (stored_doc-Same d s) in
        ground (arith, some_done, next)
  ]

  applied-Same :
      (s : Crdt a l) (x : Option Error × Crdt a l)
      → Same other s x.1
      → Same other s (applied a l e owner x).1
  applied-Same s (some failed, s1) same = same
  applied-Same s (none, s1) same =
      Same-trans s s1 (bump_version a l e owner s1) same (bump_version-Same s1)

  create-Same :
      (now : ℕ) (t : Todo) (key : String) (s : Crdt a l)
      → Same other s (create a l e now t owner key s).1
  unfolding create
  create-Same now t key s = elim (Option-cases (doc a l e now owner s)) [
    | inl failed ↦ ground (arith, failed)
    | inr ((d, s1), loaded) ↦
        let next =
          Same-trans s s1 (create_in a l e now owner t d s1).1 (doc-Same now s s1 d loaded)
            (create_in-Same now t d s1) in
        ground (arith, loaded, next)
  ]

  update-Same :
      (now : ℕ) (id : String) (patch : List Patch) (s : Crdt a l)
      → Same other s (update a l e now owner id patch s).1
  unfolding update
  update-Same now id patch s = elim (Option-cases (doc a l e now owner s)) [
    | inl failed ↦ ground (arith, failed)
    | inr ((d, s1), loaded) ↦
        let read = doc-Same now s s1 d loaded in
        elim (Option-cases (item_of (l.find d id))) [
          | inl absent ↦ ground (arith, loaded, absent, read)
          | inr (it, found) ↦
              let x = write_fields l id (map patch_field patch ++ Field.updated now ∷ []) d in
              let next =
                Same-trans s s1 (updated a l e owner id x s1).1 read (updated-Same id x s1) in
              ground (arith, loaded, found, next)
        ]
  ]

  delete-Same :
      (now : ℕ) (id : String) (s : Crdt a l) → Same other s (delete a l e now owner id s).1
  unfolding delete
  delete-Same now id s = elim (Option-cases (doc a l e now owner s)) [
    | inl failed ↦ ground (arith, failed)
    | inr ((d, s1), loaded) ↦
        let next =
          Same-trans s s1 (delete_in a l e owner id d s1).1 (doc-Same now s s1 d loaded)
            (delete_in-Same id d s1) in
        ground (arith, loaded, next)
  ]

  clear_completed-Same :
      (now : ℕ) (s : Crdt a l) → Same other s (clear_completed a l e now owner s).1
  unfolding clear_completed
  clear_completed-Same now s = elim (Option-cases (doc a l e now owner s)) [
    | inl failed ↦ ground (arith, failed)
    | inr ((d, s1), loaded) ↦
        let ids = completed_ids (l.all d) in
        let x = delete_ids l ids d in
        let next =
          Same-trans s s1 (cleared a l e owner (length ids) x s1).1 (doc-Same now s s1 d loaded)
            (cleared-Same (length ids) x s1) in
        ground (arith, loaded, next)
  ]

  apply_remote_op-Same :
      (now : ℕ) (updates : Bytes) (s : Crdt a l)
      → Same other s (apply_remote_op a l e now owner updates s).1
  unfolding apply_remote_op
  apply_remote_op-Same now updates s = elim (Option-cases (doc a l e now owner s)) [
    | inl failed ↦ ground (arith, failed)
    | inr ((d, s1), loaded) ↦
        let read = doc-Same now s s1 d loaded in
        elim (Option-cases (l.import_updates d updates)) [
          | inl refused ↦ ground (arith, loaded, refused, read)
          | inr (d', merged) ↦
              let x = persist a l e owner d' (put_doc owner d' s1) in
              let next =
                Same-trans s s1 (applied a l e owner x).1 read
                  (applied-Same s1 x (stored_doc-Same d' s1)) in
              ground (arith, loaded, merged, next)
        ]
  ]

  get-Same : (now : ℕ) (id : String) (s : Crdt a l) → Same other s (get a l e now owner id s).1
  unfolding get
  get-Same now id s = elim (Option-cases (doc a l e now owner s)) [
    | inl failed ↦ ground (arith, failed)
    | inr ((d, s1), loaded) ↦
        let read = doc-Same now s s1 d loaded in
        elim (Option-cases (find_item l d id)) [
          | inl absent ↦ ground (arith, loaded, absent, read)
          | inr (t, found) ↦ ground (arith, loaded, found, read)
        ]
  ]

  list-Same :
      (now : ℕ) (filter : String) (s : Crdt a l) → Same other s (list a l e now owner filter s).1
  unfolding list
  list-Same now filter s = elim (Option-cases (doc a l e now owner s)) [
    | inl failed ↦ ground (arith, failed)
    | inr ((d, s1), loaded) ↦ ground (arith, loaded, doc-Same now s s1 d loaded)
  ]

  count-Same : (now : ℕ) (s : Crdt a l) → Same other s (count a l e now owner s).1
  unfolding count
  count-Same now s = elim (Option-cases (doc a l e now owner s)) [
    | inl failed ↦ ground (arith, failed)
    | inr ((d, s1), loaded) ↦ ground (arith, loaded, doc-Same now s s1 d loaded)
  ]

-- Each operation for one owner, the reads and the update from another instance included, however it
-- ends, leaves the document and the version of every other owner as they were.
pub others_kept :
    (a : App) (l : Loro) (e : Wired) (owner other : String) (now : ℕ) (s : Crdt a l) (t : Todo)
    (key id filter : String) (patch : List Patch) (updates : Bytes)
    → other ≢ owner
    → Same other s (create a l e now t owner key s).1
      × Same other s (get a l e now owner id s).1
      × Same other s (list a l e now owner filter s).1
      × Same other s (update a l e now owner id patch s).1
      × Same other s (delete a l e now owner id s).1
      × Same other s (clear_completed a l e now owner s).1
      × Same other s (count a l e now owner s).1
      × Same other s (apply_remote_op a l e now owner updates s).1
others_kept a l e owner other now s t key id filter patch updates apart = (
  create-Same a l e owner other apart now t key s,
  get-Same a l e owner other apart now id s,
  list-Same a l e owner other apart now filter s,
  update-Same a l e owner other apart now id patch s,
  delete-Same a l e owner other apart now id s,
  clear_completed-Same a l e owner other apart now s,
  count-Same a l e owner other apart now s,
  apply_remote_op-Same a l e owner other apart now updates s,
)
