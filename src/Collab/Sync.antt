-- ===== src/Collab/Sync.antt =====
-- internal/collab/sync_web.go, sync.go, docstore.go, persist_pb.go and publish.go: the workers that
-- share the documents of an instance. NATS takes every message and keeps what was published;
-- encoding/json never fails on these values, and its texts are parameters.
pub mod Unopened
pub mod Fanout
use cali_go_stack.Base.{
  ℕ, suc, String, Bool, true, false, Option, none, some, List, [], ◌∷◌, ◌++◌, ◌==◌, Assoc, lookup,
  insert, concat, nat_eq, length, if◌then◌else◌,
}
use Prim.Native.Char.{code}
use cali_go_stack.Queue.Chan.{Bytes}
use cali_go_stack.Queue.Hub.{Hub, broadcast_except}
use cali_go_stack.Collab.Shapes.{Shape, ShapeOp, Board, apply_shape_op, shapes}

-- Where snapshots are kept: the state is the store's, and a save says whether it succeeded.
pub record Persister (P : Type 0) : Type 0 where
  pub save_snapshot : String → Bytes → P → Bool × P
  pub load_snapshot : String → P → Option Bytes

abbrev pub memory_persister : Persister (Assoc Bytes)
memory_persister = record {
  save_snapshot = λ doc snapshot store. (true, insert doc snapshot store);
  load_snapshot = λ doc store. lookup doc store;
}

-- A record of the collection "whiteboards". PocketBase is a parameter: whether the collection is there,
-- the first record of a doc_id, and the save, where `none` is an error.
pub record BoardRecord : Type 0 where
  pub doc_id : String
  pub version : ℕ
  pub snapshot : Bytes

pub record Boards (Db : Type 0) : Type 0 where
  pub has_collection : Db → Bool
  pub find_board : Db → String → Option BoardRecord
  pub save_board : Db → BoardRecord → Option Db

-- The record that is saved: a new one, or the next version of the one that is there.
abbrev pub next_version : String → Bytes → Option BoardRecord → BoardRecord
next_version doc snapshot none = record { doc_id = doc; version = 1; snapshot = snapshot }
next_version doc snapshot (some r) = record r { version = suc r.version; snapshot = snapshot }

abbrev non_empty : Bytes → Option Bytes
non_empty [] = none
non_empty (x ∷ xs) = some (x ∷ xs)

abbrev pub pocketbase_persister : {Db : Type 0} → Boards Db → Persister Db
pocketbase_persister p = record {
  save_snapshot = λ doc snapshot db.
      if p.has_collection db
      then elim (p.save_board db (next_version doc snapshot (p.find_board db doc))) [
        | none ↦ (false, db)
        | some db' ↦ (true, db')
      ]
      else (false, db);
  load_snapshot =
      λ doc db. elim (p.find_board db doc) [ none ↦ none | some r ↦ non_empty r.snapshot ];
}

-- What a worker shares and reaches. A nil persister or connection is `none`; a connection is what was
-- published on it.
pub record Instance (Doc P : Type 0) : Type 0 where
  pub hub : Hub
  pub persisted : Option P
  pub published : Option (List (String × Bytes))
  pub docs : Assoc Doc

unfoldable pub nats_sync_subject : String → String
nats_sync_subject doc = concat ("app.sync." ∷ doc ∷ [])

-- strings.Split on ".": the part before the first dot, and the parts behind it.
split_dots : String → String × List String
split_dots String.[] = ("", [])
split_dots (String.◌∷◌ c rest) =
    let (first, parts) = split_dots rest in
    if nat_eq (code c) 46 then ("", first ∷ parts) else (String.◌∷◌ c first, parts)

abbrev third : String × List String → String
third (app, sync ∷ doc ∷ rest) = doc
third _ = ""

unfoldable pub doc_id_from_subject : String → String
unfolding split_dots
doc_id_from_subject subject = third (split_dots subject)

module _ {F P : Type 0} (b : Board F) (per : Persister P)
    (update_event : (doc from : String) → Bytes → Bytes)
    (shapes_event : (doc from : String) → List (Shape F) → Bytes) where
  open b use {Doc}

  -- GetOrCreate.
  unfoldable pub get_or_create : String → Instance Doc P → Doc × Instance Doc P
  get_or_create doc i = elim (lookup doc i.docs) [
    | some d ↦ (d, i)
    | none ↦ (b.new_doc, record i { docs = insert doc b.new_doc i.docs })
  ]

  abbrev put_doc : String → Doc → Instance Doc P → Instance Doc P
  put_doc doc d i = record i { docs = insert doc d i.docs }

  -- A failure of the store is logged.
  abbrev saved : String → Bytes → Option P → Option P
  saved doc snapshot none = none
  saved doc snapshot (some p) = some (per.save_snapshot doc snapshot p).1

  abbrev persist : String → Doc → Instance Doc P → Instance Doc P
  persist doc d i = record i { persisted = saved doc (b.export_snapshot d) i.persisted }

  abbrev sent : String → Bytes → Option (List (String × Bytes)) → Option (List (String × Bytes))
  sent doc message none = none
  sent doc message (some log) = some (log ++ (nats_sync_subject doc, message) ∷ [])

  -- The end of ApplyUpdate and ApplyOp: the snapshot, the other clients, and the other instances.
  abbrev announce :
      (doc from : String) → Doc → (event message : Bytes) → Instance Doc P → Instance Doc P
  announce doc from d event message i =
      let p = persist doc d (put_doc doc d i) in
      record p { hub = broadcast_except p.hub event from; published = sent doc message p.published }

  -- ApplyUpdate: the length of the snapshot; `none` is an error.
  unfoldable pub apply_update :
      (doc from : String) → Bytes → Instance Doc P → Option ℕ × Instance Doc P
  unfolding get_or_create nats_sync_subject
  apply_update doc from update i =
      let (d, i') = get_or_create doc i in
      elim (b.import_update d update) [
        | none ↦ (none, i')
        | some d' ↦ (
          some (length (b.export_snapshot d')),
          announce doc from d' (update_event doc from update) update i',
        )
      ]

  abbrev op_applied :
      (doc from : String)
      → Option (List (Shape F)) × Doc
      → Instance Doc P
      → Option (List (Shape F)) × Instance Doc P
  op_applied doc from (none, d) i = (none, put_doc doc d i)
  op_applied doc from (some ss, d) i =
      (some ss, announce doc from d (shapes_event doc from ss) (b.export_snapshot d) i)

  unfoldable pub apply_op :
      (doc from : String) → ShapeOp F → Instance Doc P → Option (List (Shape F)) × Instance Doc P
  unfolding get_or_create nats_sync_subject
  apply_op doc from o i =
      let (d, i') = get_or_create doc i in op_applied doc from (apply_shape_op b o d) i'

  unfoldable pub shapes_of : String → Instance Doc P → List (Shape F) × Instance Doc P
  unfolding get_or_create
  shapes_of doc i = let (d, i') = get_or_create doc i in (shapes b d, i')

  abbrev stored : String → Option P → Option Bytes
  stored doc none = none
  stored doc (some p) = per.load_snapshot doc p

  -- LoadSnapshot: the document in memory takes the snapshot in.
  unfoldable pub load_snapshot : String → Instance Doc P → Option Bytes × Instance Doc P
  unfolding get_or_create
  load_snapshot doc i = elim (stored doc i.persisted) [
    | none ↦ (none, i)
    | some snap ↦
        let (d, i') = get_or_create doc i in
        elim (b.import_update d snap) [
          | none ↦ (none, i')
          | some d' ↦ (some snap, put_doc doc d' i')
        ]
  ]

  -- The callback of SyncWorker.Run.
  unfoldable pub on_sync : (subject : String) → Bytes → Instance Doc P → Instance Doc P
  unfolding get_or_create doc_id_from_subject
  on_sync subject update i =
      let doc = doc_id_from_subject subject in
      let (d, i') = get_or_create doc i in
      if doc == "" then i else elim (b.import_update d update) [
        | none ↦ i'
        | some d' ↦ persist doc d' (put_doc doc d' i')
      ]

  -- PublishUpdate of the desktop's publisher; `since` is a version vector, or nil.
  unfoldable pub publish_update :
      String → Doc → (since : Option Bytes) → List (String × Bytes) → Option (List (String × Bytes))
  publish_update doc d since log = elim (b.export_update d since) [
    | none ↦ none
    | some update ↦ some (log ++ (concat ("app.sync." ∷ doc ∷ []), update) ∷ [])
  ]
