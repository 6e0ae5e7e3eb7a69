-- ===== src/Handlers/Anonymous.antt =====
-- A request without a session, over the PocketBase strategy.
use cali_go_stack.Base.{◌≡◌, some, none, arith, eq_iff}
use cali_go_stack.Store.App.{App, Laws, Record}
use cali_go_stack.Store.Pb.{pb_store, get, delete, list, owned, foreign}
use cali_go_stack.Handlers.{Request, World, Wiring, handle_delete}

module _ (a : App) (laws : Laws a) (wiring : Wiring) (r : Request) (w : World a.Db) where
  open a use {Db, find_by_id}

  -- A delete request without a session deletes any user's todo, whoever owns it, wherever
  -- PocketBase performs the deletion.
  pub anonymous_delete :
      (rec : Record) (db' : Db)
      → r.user ≡ ""
      → find_by_id w.state r.id ≡ some rec
      → a.delete w.state rec ≡ some db'
      → find_by_id (handle_delete (pb_store a) wiring r w).1.state r.id ≡ none
  unfolding handle_delete get delete owned foreign list
  anonymous_delete rec db' guest found deleted = ground (
    arith,
    found,
    deleted,
    guest,
    eq_iff r.user "",
    laws.find_id w.state r.id rec found,
    laws.find_delete w.state db' rec r.id deleted,
    eq_iff rec.id r.id,
  )
