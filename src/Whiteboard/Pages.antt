-- ===== src/Whiteboard/Pages.antt =====
-- features/whiteboard/handler.go: the handlers of pages, ops and snapshots. PocketBase is a parameter; what
-- the pages hold beside the boards, and the links to them, is left out.
pub mod Guests
use cali_go_stack.Base.{
  ℕ, String, Bool, true, false, not, Option, none, some, List, [], ◌∷◌, ◌++◌, ◌==◌, concat, length,
  if◌then◌else◌,
}
use cali_go_stack.Auth.Guard.{require_auth}
use cali_go_stack.Queue.Chan.{Bytes}
use cali_go_stack.Collab.Shapes.{Shape, ShapeOp, Board}
use cali_go_stack.Collab.Sync.{Instance, Persister, apply_op, load_snapshot, shapes_of}

pub record BoardMeta : Type 0 where
  pub doc_id : String
  pub doc_ver : ℕ

-- A record of the collection "whiteboards"; an owner that is not set is empty.
pub record BoardRow : Type 0 where
  pub doc_id : String
  pub version : ℕ
  pub owner : String

-- What is called of PocketBase: at most `limit` records, the latest first; whether there is the
-- collection; and saving a record, which is `none` on an error.
pub record BoardsDb : Type 1 where
  pub Db : Type 0
  pub find_latest : (limit : ℕ) → Db → Option (List BoardRow)
  pub has_collection : Db → Bool
  pub save : BoardRow → Db → Option Db

-- The answers, in the order in which a handler writes them: the client gets the status of the first.
pub data Answer : Type 0 where
  login : Answer
  to_board : (doc : String) → Answer
  missing_doc_id : Answer
  refused : Answer
  list : (email : String) → List BoardMeta → Answer
  fragment : List BoardMeta → Answer
  board : (email doc : String) → Answer
  counted : ℕ → Answer

-- A user of the session: the id and the email.
abbrev pub User : Type 0
User = String × String

abbrev pub email_of : Option User → String
email_of none = ""
email_of (some u) = u.1

abbrev pub id_of : Option User → String
id_of none = ""
id_of (some u) = u.0

abbrev pub whiteboard_list_limit : ℕ
whiteboard_list_limit = 50

unfoldable pub metas : List BoardRow → List BoardMeta
metas [] = []
metas (r ∷ rs) = record { doc_id = r.doc_id; doc_ver = r.version } ∷ metas rs

abbrev found : Option (List BoardRow) → List BoardMeta
found none = []
found (some rs) = metas rs

abbrev pub new_row : (doc : String) → Option User → BoardRow
new_row doc user = record { doc_id = doc; version = 0; owner = id_of user }

module _ (pb : BoardsDb) where
  open pb use {Db, find_latest, has_collection, save}

  unfoldable pub handle_index : Option User → Db → List Answer
  unfolding require_auth metas
  handle_index user db =
      require_auth login user
      ++ list (email_of user) (found (find_latest whiteboard_list_limit db)) ∷ []

  unfoldable pub handle_list_fragment : Db → List Answer
  unfolding metas
  handle_list_fragment db = fragment (found (find_latest whiteboard_list_limit db)) ∷ []

  abbrev or_old : Db → Option Db → Db
  or_old db none = db
  or_old db (some db') = db'

  -- `doc` is the id that uuid makes. An error of Save is only logged.
  unfoldable pub handle_new : (doc : String) → Option User → Db → List Answer × Db
  unfolding require_auth
  handle_new doc user db = (
    require_auth login user ++ to_board doc ∷ [],
    if has_collection db then or_old db (save (new_row doc user) db) else db,
  )

module _ {F P : Type 0} (b : Board F) (per : Persister P)
    (update_event : (doc from : String) → Bytes → Bytes)
    (shapes_event : (doc from : String) → List (Shape F) → Bytes) where
  open b use {Doc}

  abbrev op_answer : Option (List (Shape F)) → Answer
  op_answer none = refused
  op_answer (some ss) = counted (length ss)

  -- handleUpdate; `op` is the body, or `none` where it is not read or is no op.
  unfoldable pub handle_update :
      (doc from : String) → Option (ShapeOp F) → Instance Doc P → Answer × Instance Doc P
  handle_update doc from none i = (if doc == "" then missing_doc_id else refused, i)
  handle_update doc from (some op) i =
      if doc == ""
      then (missing_doc_id, i)
      else let r = apply_op b per update_event shapes_event doc from op i in (op_answer r.0, r.1)

  -- handleBoard: the snapshot is loaded into the instance, whoever asks.
  unfoldable pub handle_board :
      (doc : String) → Option User → Instance Doc P → List Answer × Instance Doc P
  unfolding require_auth
  handle_board doc user i =
      if doc == "" then (require_auth login user ++ missing_doc_id ∷ [], i) else (
        require_auth login user ++ board (email_of user) doc ∷ [],
        (load_snapshot b per update_event shapes_event doc i).1,
      )

  -- handleSnapshot: the shapes.
  unfoldable pub handle_snapshot : (doc : String) → Instance Doc P → List (Shape F) × Instance Doc P
  handle_snapshot doc i = shapes_of b per update_event shapes_event doc i
