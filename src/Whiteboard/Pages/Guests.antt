-- ===== src/Whiteboard/Pages/Guests.antt =====
-- What a request without a session does.
use cali_go_stack.Base.{◌≡◌, refl, String, true, Option, none, some, [], ◌∷◌}
use cali_go_stack.Auth.Guard.{require_auth}
use cali_go_stack.Whiteboard.Pages.{BoardsDb, BoardRow, login, to_board, handle_new, new_row}

-- Reading a collection by the ids of its documents.
pub record BoardsLaws (pb : BoardsDb) (find : String → pb.Db → Option BoardRow) : Type 0 where
  pub find_saved :
      (row : BoardRow) (db db' : pb.Db) → pb.save row db ≡ some db' → find row.doc_id db' ≡ some row

module _ (pb : BoardsDb) (find : String → pb.Db → Option BoardRow) (laws : BoardsLaws pb find) where
  open pb use {Db, has_collection, save}

  -- A guest who asks for a new board is sent to the login, and the board is made all the same, without
  -- an owner, where there is the collection and PocketBase saves it.
  pub guest_makes_board :
      (doc : String) (db db' : Db)
      → has_collection db ≡ true
      → save (new_row doc none) db ≡ some db'
      → let (answers, after) = handle_new pb doc none db in
        (answers ≡ login ∷ to_board doc ∷ [])
        × (find doc after ≡ some (record { doc_id = doc; version = 0; owner = "" }))
  unfolding handle_new require_auth
  guest_makes_board doc db db' there saved =
      (refl, rw (there, saved) (laws.find_saved (new_row doc none) db db' saved))
