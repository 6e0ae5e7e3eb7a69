-- ===== src/Nats/Crud.antt =====
-- internal/nats/crudproxy.go: the CRUD operations that an instance publishes, and the consumer that
-- writes them to another instance's PocketBase. A payload is the value that the JSON stands for:
-- marshalling and its errors are left out, and so is the log.
pub mod Consumer
pub mod Redelivery
use cali_go_stack.Base.{
  ℕ, String, Bool, true, false, not, ◌&&◌, Option, none, some, List, [], ◌∷◌, ◌++◌, ◌==◌,
  if◌then◌else◌,
}
use cali_go_stack.Store.App.{App, Record, new_record, Condition, completed_is, owner_is}

-- CrudOpType is a text: any other text may arrive.
pub data CrudOp : Type 0 where
  create toggle delete clear_completed : CrudOp
  other : String → CrudOp

pub record CrudData : Type 0 where
  pub id : String
  pub title : String
  pub completed : Bool

pub record CrudPayload : Type 0 where
  pub op : CrudOp
  pub user : String
  pub content : Option CrudData

-- CrudPublisher.Publish, with what has been handed to JetStream; the flag is whether there is a
-- publisher.
unfoldable pub publish :
    Bool → CrudOp → String → Option CrudData → List CrudPayload → List CrudPayload
publish has_publisher op user content stream =
    if has_publisher
    then stream ++ record { op = op; user = user; content = content } ∷ []
    else stream

module _ (a : App) where
  open a use {Db, find_collection, find_by_id, find_by_filter, insert, save}

  -- An error of PocketBase is logged, and leaves the table as it was.
  abbrev after_save : Db → Option (Record × Db) → Db
  after_save db none = db
  after_save db (some (stored, db')) = db'

  abbrev after_delete : Db → Option Db → Db
  after_delete db none = db
  after_delete db (some db') = db'

  -- The record that handleCreate saves: with the id of the publisher's record.
  abbrev pub replica : String → CrudData → Record
  replica user d = record new_record {
    id = d.id;
    title = d.title;
    completed = d.completed;
    owner = user;
  }

  unfoldable pub handle_create : String → Option CrudData → Db → Db
  handle_create user none db = db
  handle_create user (some d) db =
      if d.title == ""
      then db
      else if find_collection db
      then after_save db (insert db (replica user d))
      else db

  -- owner != "" && owner != p.UserID
  abbrev pub foreign : String → Record → Bool
  foreign user r = not (r.owner == "") && not (r.owner == user)

  -- The record that a toggle or a delete may touch.
  unfoldable pub target : String → Option CrudData → Db → Option Record
  target user none db = none
  target user (some d) db = if d.id == "" then none else elim (find_by_id db d.id) [
    | none ↦ none
    | some r ↦ if foreign user r then none else some r
  ]

  abbrev flag_of : Option CrudData → Bool
  flag_of none = false
  flag_of (some d) = d.completed

  unfoldable pub handle_toggle : String → Option CrudData → Db → Db
  handle_toggle user content db = elim (target user content db) [
    | none ↦ db
    | some r ↦ after_save db (save db (record r { completed = flag_of content }))
  ]

  unfoldable pub handle_delete : String → Option CrudData → Db → Db
  handle_delete user content db = elim (target user content db) [
    | none ↦ db
    | some r ↦ after_delete db (a.delete db r)
  ]

  -- A record that cannot be deleted does not stop the loop.
  unfoldable pub delete_each : List Record → Db → Db
  delete_each [] db = db
  delete_each (r ∷ rs) db = delete_each rs (after_delete db (a.delete db r))

  unfoldable pub handle_clear_completed : String → Db → Db
  handle_clear_completed user db =
      elim (find_by_filter db (completed_is true ∷ owner_is user ∷ [])) [
        | none ↦ db
        | some rs ↦ delete_each rs db
      ]

  abbrev dispatch : CrudOp → String → Option CrudData → Db → Db
  dispatch create user content db = handle_create user content db
  dispatch toggle user content db = handle_toggle user content db
  dispatch delete user content db = handle_delete user content db
  dispatch clear_completed user content db = handle_clear_completed user db
  dispatch (other op) user content db = db

  -- The consumer's callback: whether the message is acknowledged, and the table.
  unfoldable pub consume : CrudPayload → Db → Bool × Db
  consume p db = if p.user == "" then (false, db) else (true, dispatch p.op p.user p.content db)
