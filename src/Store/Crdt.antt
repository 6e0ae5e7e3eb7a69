-- ===== src/Store/Crdt.antt =====
-- features/store/crdtstore/crdtstore.go: the strategy that keeps each owner's todos in a Loro document
-- and projects them onto PocketBase records. Documents are shared and change in place, so what an
-- operation wrote before it failed stays written. The watchers of the versions, the publisher's name
-- and Close are in Crdt/Watch; EnsureSchema and the log are left out. The order of a document's items
-- is that of `all`.
pub mod Docs
pub mod Reads
pub mod Scope
pub mod Remote
pub mod Watch
use cali_go_stack.Base.{
  ℕ, zero, suc, ◌+◌, ◌*◌, ◌/◌, ◌%◌, ◌^◌, String, Bool, true, false, not, ◌&&◌, ◌||◌, Option, none,
  some, List, [], ◌∷◌, ◌++◌, map, ◌==◌, Assoc, lookup, insert, length, nat_eq, if◌then◌else◌,
}
use cali_go_stack.Queue.Chan.{Bytes}
use cali_go_stack.Store.Entity.{
  Todo, Error, not_found, no_collection, save_failed, list_failed, load_failed, insert_failed,
  write_failed, patch_failed, delete_failed, created_missing, import_failed, empty_owner, empty_id,
  Result, ok, err, Patch, EntityStore,
}
use cali_go_stack.Store.App.{App, Record, new_record, owner_is, idem_key_is}
use cali_go_stack.Store.Loro.{Loro, Item, Value, child, Field, unread}
use cali_go_stack.Store.Items.{
  to_second, item_fields, or_else, todo_from_loro, item_of, todo_at, todos_of, filtered,
  completed_ids, patch_field, write_fields, find_item, rehydrate, delete_ids, todo_from_record,
  written,
}
use cali_go_stack.Store.Projection.{page_size, project}

-- Whether the transport and the publisher are wired.
pub record Wired : Type 0 where
  pub transport : Bool
  pub publisher : Bool

-- The id of a published op: the texts "create-" and so on, with the todo's id.
pub data OpId : Type 0 where
  create_op update_op delete_op : String → OpId
  clear_op : OpId

-- What is handed to the transport.
pub record DocOp : Type 0 where
  pub owner : String
  pub id : OpId
  pub updates : Bytes

pub record Crdt (a : App) (l : Loro) : Type 0 where
  pub docs : Assoc l.Doc
  pub versions : Assoc ℕ
  pub db : a.Db
  pub ops : List DocOp
  -- The calls of PublishDocEvent.
  pub events : List (String × ℕ)

module _ {a : App} {l : Loro} where
  abbrev pub version : String → Crdt a l → ℕ
  version owner s = or_else 0 (lookup owner s.versions)

  abbrev pub put_doc : String → l.Doc → Crdt a l → Crdt a l
  put_doc owner d s = record s { docs = insert owner d s.docs }

module _ (a : App) (l : Loro) (e : Wired) where
  open l use {Doc}

  abbrev State : Type 0
  State = Crdt a l

  -- bumpVersion: the counter is a uint64.
  unfoldable pub bump_version : String → State → State
  bump_version owner s =
      let v = (version owner s + 1) % 2 ^ 64 in
      record s {
        versions = insert owner v s.versions;
        events = if e.publisher then s.events ++ (owner, v) ∷ [] else s.events;
      }

  -- publishOpFromDoc
  unfoldable pub publish_op : String → OpId → Doc → State → State
  publish_op owner id d s =
      if e.transport
      then elim (l.export_updates d) [
        | none ↦ s
        | some updates ↦ record s {
          ops = s.ops ++ record { owner = owner; id = id; updates = updates } ∷ [];
        }
      ]
      else s

  -- The owner's document, loaded from the table where it is not in memory.
  unfoldable pub doc : ℕ → String → State → Option (Doc × State)
  doc now owner s = elim (lookup owner s.docs) [
    | some d ↦ some (d, s)
    | none ↦ elim (a.find_page s.db (owner_is owner ∷ []) true (page_size a l)) [
      | none ↦ none
      | some rs ↦ elim (rehydrate l now rs l.new_doc) [
        | none ↦ none
        | some d ↦ some (d, put_doc owner d s)
      ]
    ]
  ]

  -- persistRecords: the version is bumped before anything is written.
  unfoldable pub persist : String → Doc → State → Option Error × State
  persist owner d s =
      let (failed, db) = project a l owner d s.db in
      (failed, record (bump_version owner s) { db = db })

  -- The todo that an operation returns once its write is persisted: it is published and read back.
  abbrev pub read_back :
      (owner : String) → OpId → String → Doc → Error → Option Error × State → Result Todo × State
  read_back owner op id d missing (some failed, s) = (err failed, s)
  read_back owner op id d missing (none, s) = elim (find_item l d id) [
    | none ↦ (err missing, publish_op owner op d s)
    | some t ↦ (ok t, publish_op owner op d s)
  ]

  abbrev created : String → Todo → Bool × Doc → State → Result Todo × State
  created owner t (false, d) s = (err write_failed, put_doc owner d s)
  created owner t (true, d) s =
      read_back owner (create_op t.id) t.id d created_missing (persist owner d (put_doc owner d s))

  abbrev create_in : ℕ → String → Todo → Doc → State → Result Todo × State
  create_in now owner t d s = elim (find_item l d t.id) [
    | some old ↦ (ok old, s)
    | none ↦ elim (l.insert_map d t.id) [
      | none ↦ (err insert_failed, s)
      | some d' ↦ created owner t (write_fields l t.id (item_fields now t) d') s
    ]
  ]

  unfoldable pub create : ℕ → Todo → (owner idem_key : String) → State → Result Todo × State
  create now t owner idem_key s =
      if owner == ""
      then (err empty_owner, s)
      else if t.id == ""
      then (err empty_id, s)
      else elim (doc now owner s) [
        | none ↦ (err load_failed, s)
        | some (d, s') ↦ create_in now owner t d s'
      ]

  unfoldable pub get : ℕ → (owner id : String) → State → Result Todo × State
  get now owner id s =
      if (owner == "") || (id == "") then (err not_found, s) else elim (doc now owner s) [
        | none ↦ (err load_failed, s)
        | some (d, s') ↦ elim (find_item l d id) [
          | none ↦ (err not_found, s')
          | some t ↦ (ok t, s')
        ]
      ]

  unfoldable pub list : ℕ → (owner filter : String) → State → Result (List Todo) × State
  list now owner filter s = if owner == "" then (ok [], s) else elim (doc now owner s) [
    | none ↦ (err load_failed, s)
    | some (d, s') ↦ (ok (filtered filter (todos_of (l.all d))), s')
  ]

  abbrev pub updated : (owner id : String) → Bool × Doc → State → Result Todo × State
  updated owner id (false, d) s = (err patch_failed, put_doc owner d s)
  updated owner id (true, d) s =
      read_back owner (update_op id) id d not_found (persist owner d (put_doc owner d s))

  unfoldable pub update : ℕ → (owner id : String) → List Patch → State → Result Todo × State
  update now owner id patch s =
      if (owner == "") || (id == "") then (err not_found, s) else elim (doc now owner s) [
        | none ↦ (err load_failed, s)
        | some (d, s') ↦ elim (item_of (l.find d id)) [
          | none ↦ (err not_found, s')
          | some it ↦
              updated owner id
                (write_fields l id (map patch_field patch ++ Field.updated now ∷ []) d) s'
        ]
      ]

  -- The end of an operation that returns no todo.
  abbrev pub announce {ℓ} :
      {R : Type ℓ} → R → String → OpId → Doc → Option Error × State → Result R × State
  announce r owner op d (some failed, s) = (err failed, s)
  announce r owner op d (none, s) = (ok r, publish_op owner op d s)

  abbrev delete_in : (owner id : String) → Doc → State → Result (Unit {0}) × State
  delete_in owner id d s = elim (l.find d id) [
    | none ↦ (err not_found, s)
    | some v ↦ elim (l.delete d id) [
      | none ↦ (err delete_failed, s)
      | some d' ↦ announce tt owner (delete_op id) d' (persist owner d' (put_doc owner d' s))
    ]
  ]

  unfoldable pub delete : ℕ → (owner id : String) → State → Result (Unit {0}) × State
  delete now owner id s =
      if (owner == "") || (id == "") then (err not_found, s) else elim (doc now owner s) [
        | none ↦ (err load_failed, s)
        | some (d, s') ↦ delete_in owner id d s'
      ]

  abbrev pub cleared : String → ℕ → Bool × Doc → State → Result ℕ × State
  cleared owner n (false, d) s = (err delete_failed, put_doc owner d s)
  cleared owner n (true, d) s =
      if nat_eq n 0
      then (ok n, put_doc owner d s)
      else announce n owner clear_op d (persist owner d (put_doc owner d s))

  unfoldable pub clear_completed : ℕ → (owner : String) → State → Result ℕ × State
  clear_completed now owner s = if owner == "" then (ok 0, s) else elim (doc now owner s) [
    | none ↦ (err load_failed, s)
    | some (d, s') ↦
        let ids = completed_ids (l.all d) in cleared owner (length ids) (delete_ids l ids d) s'
  ]

  unfoldable pub count : ℕ → (owner : String) → State → Result ℕ × State
  count now owner s = if owner == "" then (ok 0, s) else elim (doc now owner s) [
    | none ↦ (err load_failed, s)
    | some (d, s') ↦ (ok (length (l.all d)), s')
  ]

  abbrev applied : String → Option Error × State → Result (Unit {0}) × State
  applied owner (some failed, s) = (err failed, s)
  applied owner (none, s) = (ok tt, bump_version owner s)

  unfoldable pub apply_remote_op : ℕ → String → Bytes → State → Result (Unit {0}) × State
  apply_remote_op now owner updates s =
      if owner == ""
      then (err empty_owner, s)
      else if nat_eq (length updates) 0
      then (ok tt, s)
      else elim (doc now owner s) [
        | none ↦ (err load_failed, s)
        | some (d, s') ↦ elim (l.import_updates d updates) [
          | none ↦ (err import_failed, s')
          | some d' ↦ applied owner (persist owner d' (put_doc owner d' s'))
        ]
      ]

  -- CRDTStore as an EntityStore, at a time.
  abbrev pub crdt_store : ℕ → EntityStore State
  crdt_store now = record {
    create = create now;
    get = get now;
    list = list now;
    update = update now;
    delete = delete now;
    clear_completed = clear_completed now;
    count = count now;
  }
