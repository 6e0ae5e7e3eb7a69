-- ===== src/Handlers/Replication.antt =====
-- A toggle on one instance, carried to another.
use cali_go_stack.Base.{
  ◌≡◌, ◌≢◌, sym, ap, ◌∙◌, String, Bool, true, not, Option, some, List, [], ◌∷◌, ◌++◌, arith, eq_iff,
}
use cali_go_stack.Store.Entity.{Todo, Result}
use cali_go_stack.Store.App.{App, Laws, Record}
use cali_go_stack.Store.Pb.{pb_store, list, from_record}
use cali_go_stack.Store.Pb.Effects.{find-update}
use cali_go_stack.Nats.Crud.{
  CrudPayload, toggle, publish, consume, handle_toggle as consume_toggle, target,
}
use cali_go_stack.Handlers.{Request, World, Wiring, Toast, handle_toggle, patched}
use cali_go_stack.Handlers.Replay.{toggle-Toggled}

module _ (b : App) (laws : Laws b) where
  -- The consumer of a toggle gives the record of that id the published flag, if the record is the
  -- publisher's user's and PocketBase stores it.
  pub find-consume_toggle :
      (user id : String) (flag : Bool) (db db' : b.Db) (r stored : Record)
      → user ≢ ""
      → id ≢ ""
      → b.find_by_id db id ≡ some r
      → r.owner ≡ user
      → b.save db (record r { completed = flag }) ≡ some (stored, db')
      → let p : CrudPayload = record {
        op = toggle;
        user = user;
        content = some (record { id = id; title = ""; completed = flag });
      } in
        (consume b p db ≡ (true, db'))
        × (b.find_by_id db' id ≡ some stored)
        × (stored.completed ≡ flag)
  unfolding consume consume_toggle target
  find-consume_toggle user id flag db db' r stored named told found own saved =
      let same = laws.find_id db id r found in
      let s = laws.save_stores db db' (record r { completed = flag }) stored saved in
      let kept = s.id (λ e. told (sym same ∙ e)) in
      (
        ground (arith, found, own, saved, eq_iff user "", eq_iff id "", eq_iff r.owner user),
        ground (
          arith,
          kept,
          same,
          laws.find_save db db' (record r { completed = flag }) stored id saved,
          eq_iff stored.id id,
        ),
        s.completed,
      )

module _ (a b : App) (laws_a : Laws a) (laws_b : Laws b) where
  state-list : (caller filter : String) (db : a.Db) → (list a caller filter db).1 ≡ db
  unfolding list
  state-list caller filter db = ground arith

  -- A toggle of a user with a session, with a publisher wired, that one instance answers with
  -- the list leaves the todo there with a flag, and hands on one payload. Another instance that
  -- holds the user's copy of the record, and whose PocketBase stores it, acknowledges that
  -- payload and ends with the same flag in its copy.
  pub toggle_replicated :
      (wiring : Wiring) (r : Request) (w w' : World a.Db) (todos : List Todo) (toast : Option Toast)
      (db : b.Db) (copy : Record)
      → wiring.publisher ≡ true
      → r.user ≢ ""
      → r.id ≢ ""
      → handle_toggle (pb_store a) wiring r w ≡ (patched todos toast, w')
      → b.find_by_id db r.id ≡ some copy
      → copy.owner ≡ r.user
      → ((flag : Bool)
          → (db' : b.Db) × (stored : Record) × (b.save db (record copy { completed = flag })
              ≡ some (stored, db')))
      → (p : CrudPayload) × (db' : b.Db) × (here there : Record) × (w'.published
          ≡ w.published ++ p ∷ [])
        × (consume b p db ≡ (true, db'))
        × (a.find_by_id w'.state r.id ≡ some here)
        × (b.find_by_id db' r.id ≡ some there)
        × (there.completed ≡ here.completed)
  unfolding publish from_record
  toggle_replicated wiring r w w' todos toast db copy wired named told done found own accepts =
      let t = toggle-Toggled (pb_store a) wiring r w w' todos toast done in
      let (here, at, read, same_id, flagged) =
        find-update a laws_a t.read t.written r.user r.id (not t.current.completed) t.patched_todo
          told t.was_written in
      let flag = t.patched_todo.completed in
      let (db', there, saved) = accepts flag in
      let (consumed, arrived, copied) =
        find-consume_toggle b laws_b r.user r.id flag db db' copy there named told found own
          saved in
      let p : CrudPayload = record {
        op = toggle;
        user = r.user;
        content = some (record { id = r.id; title = ""; completed = flag });
      } in
      let kept = state-list r.user "all" t.written in
      (
        p,
        db',
        here,
        there,
        ground (arith, t.published, wired, same_id),
        consumed,
        ap (λ db. a.find_by_id db r.id)
              (sym (ap (λ (p : Result (List Todo) × a.Db). p.1) t.listed) ∙ kept)
            ∙ at,
        arrived,
        ground (arith, copied, read),
      )
