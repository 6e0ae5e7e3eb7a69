-- ===== src/Tests/Boards.antt =====
-- Boards on concrete documents and clients.
use cali_go_stack.Base.{
  ℕ, ◌≡◌, refl, String, none, some, List, [], ◌∷◌, Assoc, lookup, insert, length, true, Option,
  if◌then◌else◌, ◌==◌, eq_iff, arith,
}
use cali_go_stack.Queue.Chan.{Bytes}
use cali_go_stack.Collab.Shapes.{
  Shape, Board, Value, apply_shape_op, write_shape, write_fields, read_shapes,
}
use cali_go_stack.Collab.Sync.{
  Instance, Boards, BoardRecord, memory_persister, pocketbase_persister, apply_op, get_or_create,
}
use cali_go_stack.Collab.Sync.Unopened.{unopened_overwritten}
use cali_go_stack.Whiteboard.{Texts, open_stream, close_stream}
use cali_go_stack.Whiteboard.Peers.{late_close_changes_nothing}
use cali_go_stack.Collab.Sync.Fanout.{shapes_reach_every_board}
use cali_go_stack.Whiteboard.Pages.{BoardsDb, BoardRow, login, to_board, handle_new}
use cali_go_stack.Whiteboard.Pages.Guests.{BoardsLaws, guest_makes_board}
use cali_go_stack.Tests.Hubs.{busy, busy-IsValid, holder_2}

-- Documents as maps of entries; the snapshot is the number of shapes, and every import brings one shape.
abbrev counting : Board ℕ
counting = record {
  Doc = Assoc (Assoc (Value ℕ));
  new_doc = [];
  zero = 0;
  find = λ d id. lookup id d;
  all = λ d. d;
  insert_map = λ d id. some (insert id [] d);
  insert_any = λ d id key v. some d;
  clear = λ d. some [];
  import_update = λ d bytes. some (insert "old" [] d);
  export_update = λ d since. none;
  export_snapshot = λ d. length d ∷ [];
  points_text = λ ps. "";
  points_of = λ t. some [];
}

abbrev line : Shape ℕ
line = record {
  id = "new";
  kind = "line";
  x = 0;
  y = 0;
  w = 1;
  h = 1;
  points = [];
  color = "red";
  author = "ann";
}

abbrev restarted : Instance (Assoc (Assoc (Value ℕ))) (Assoc Bytes)
restarted = record {
  hub = busy;
  persisted = some (("d", 1 ∷ []) ∷ []);
  published = none;
  docs = [];
}

abbrev no_event : String → String → Bytes → Bytes
no_event doc from update = []

abbrev no_shapes_event : String → String → List (Shape ℕ) → Bytes
no_shapes_event doc from shapes = []

-- One record, and no other.
abbrev one_record : Boards BoardRecord
one_record = record {
  has_collection = λ db. true;
  find_board = λ db doc. if db.doc_id == doc then some db else none;
  save_board = λ db r. some r;
}

abbrev old_board : BoardRecord
old_board = record { doc_id = "d"; version = 4; snapshot = 1 ∷ [] }

abbrev rebooted : Instance (Assoc (Assoc (Value ℕ))) BoardRecord
rebooted = record { hub = busy; persisted = some old_board; published = none; docs = [] }

-- One shape is saved and one is drawn: the next version has one shape, and should have two.
unopened_overwritten_example :
    let unopened =
      apply_op counting
        (pocketbase_persister one_record)
        no_event
        no_shapes_event
        "d"
        "a1"
        (record { op = "add"; shape = line })
        rebooted in
    unopened.1.persisted ≡ some (record { doc_id = "d"; version = 5; snapshot = 1 ∷ [] })
unfolding lookup insert apply_shape_op write_shape write_fields read_shapes
unopened_overwritten_example =
    (unopened_overwritten counting one_record no_event no_shapes_event rebooted old_board
      (record { doc_id = "d"; version = 5; snapshot = 1 ∷ [] }) "d" "a1"
      (record { op = "add"; shape = line }) old_board _ _ refl refl refl refl refl refl).1

abbrev plain_texts : Texts
plain_texts = record { presence = λ kind doc user peers. 1 ∷ []; shapes = λ doc. none }

-- The stream on channel 1 ends after the reload has opened one on channel 7.
late_close_changes_nothing_example :
    let b = (open_stream plain_texts "d" "a1" 7 (record { hub = busy; peers = [] })).1 in
    close_stream plain_texts "d" "a1" 1 b ≡ b
late_close_changes_nothing_example =
    (late_close_changes_nothing plain_texts (record { hub = busy; peers = [] }) "d" "d" "a1" 1 7
      (λ e. cc)).0

-- Board "d" is drawn on, and the tab a2 hears of it, whatever it shows.
abbrev drawn : String → String → List (Shape ℕ) → Bytes
drawn doc from shapes = 5 ∷ []

shapes_reach_every_board_example :
    (apply_op counting memory_persister no_event drawn "d" "a1"
        (record { op = "add"; shape = line })
        restarted).1.hub.channels
      2
    ≡ record { capacity = 2; pending = (5 ∷ []) ∷ [] }
unfolding lookup insert apply_shape_op write_shape write_fields read_shapes get_or_create
shapes_reach_every_board_example =
    (shapes_reach_every_board counting memory_persister no_event drawn restarted "d" "a1"
      (record { op = "add"; shape = line }) _ _ "a2" 2 "app.sync.d" [] busy-IsValid refl holder_2
      refl).0

-- Boards as the list of their records, the latest first.
abbrev listed : BoardsDb
listed = record {
  Db = List BoardRow;
  find_latest = λ limit db. some db;
  has_collection = λ db. true;
  save = λ row db. some (row ∷ db);
}

abbrev latest_of : String → List BoardRow → Option BoardRow
latest_of doc [] = none
latest_of doc (r ∷ rs) = if r.doc_id == doc then some r else latest_of doc rs

listed-laws : BoardsLaws listed latest_of
listed-laws = record {
  find_saved = λ row db db' saved. ground (arith, saved, eq_iff row.doc_id row.doc_id);
}

guest_makes_board_example :
    ((handle_new listed "d" none []).0 ≡ login ∷ to_board "d" ∷ [])
    × (latest_of "d" (handle_new listed "d" none []).1
        ≡ some (record { doc_id = "d"; version = 0; owner = "" }))
guest_makes_board_example =
    guest_makes_board listed latest_of listed-laws "d" []
      (record { doc_id = "d"; version = 0; owner = "" } ∷ []) refl refl
