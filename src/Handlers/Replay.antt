-- ===== src/Handlers/Replay.antt =====
-- What the handlers publish for a request that the service worker sends again.
use cali_go_stack.Base.{
  ℕ, ◌≡◌, ◌≢◌, refl, sym, ap, String, true, false, not, Option, some, none, List, [], ◌∷◌, ◌++◌,
  arith, ◌==◌, eq_iff, Bool-cases, inl, inr, if◌then◌else◌,
}
use cali_go_stack.Store.Entity.{Todo, Result, ok, err, completed, EntityStore}
use cali_go_stack.Nats.Crud.{create, toggle, publish}
use cali_go_stack.Handlers.{
  Request, Response, World, Wiring, Toast, handle_create, handle_toggle, handle_delete,
  handle_clear_completed, toggle_found, after_toggle, delete_found, after_delete, after_clear,
  patched, patch_and_publish,
}

module _ {S : Type 0} (st : EntityStore S) (wiring : Wiring) (r : Request) (w : World S) where
  quiet_after_toggle :
      (x : Result Todo × S)
      → r.replayed ≡ true
      → (after_toggle st wiring r w x).1.published ≡ w.published
  quiet_after_toggle (ok t, s) again = rw again
  quiet_after_toggle (err e, s) again = refl

  quiet_toggle_found :
      (x : Result Todo × S)
      → r.replayed ≡ true
      → (toggle_found st wiring r w x).1.published ≡ w.published
  quiet_toggle_found (ok t, s) again = quiet_after_toggle _ again
  quiet_toggle_found (err e, s) again = refl

  quiet_after_delete :
      (t : Todo) (x : Result (Unit {0}) × S)
      → r.replayed ≡ true
      → (after_delete st wiring r w t x).1.published ≡ w.published
  quiet_after_delete t (ok u, s) again = rw again
  quiet_after_delete t (err e, s) again = ground arith

  quiet_delete_found :
      (x : Result Todo × S)
      → r.replayed ≡ true
      → (delete_found st wiring r w x).1.published ≡ w.published
  quiet_delete_found (ok t, s) again = quiet_after_delete t _ again
  quiet_delete_found (err e, s) again = refl

  quiet_after_clear :
      (x : Result ℕ × S)
      → r.replayed ≡ true
      → (after_clear st wiring r w x).1.published ≡ w.published
  quiet_after_clear (ok n, s) again = rw again
  quiet_after_clear (err e, s) again = refl

  -- A replayed toggle, delete or clear is never published, whatever the strategy does with it.
  pub replay_unpublished :
      r.replayed ≡ true
      → ((handle_toggle st wiring r w).1.published ≡ w.published)
        × ((handle_delete st wiring r w).1.published ≡ w.published)
        × ((handle_clear_completed st wiring r w).1.published ≡ w.published)
  unfolding handle_toggle handle_delete handle_clear_completed
  replay_unpublished again =
      (quiet_toggle_found _ again, quiet_delete_found _ again, quiet_after_clear _ again)

  -- Whenever the strategy saves the todo of a valid create request with a title, and a publisher
  -- is wired, the todo's id, title and state are handed to the publisher, for the first request
  -- and for a replay alike.
  pub create_published :
      (fresh : String) (now : ℕ) (t : Todo) (s : S)
      → wiring.publisher ≡ true
      → r.form_ok ≡ true
      → r.title ≢ ""
      → let key = if r.idem_key == "" then fresh else r.idem_key in
        st.create
            (record { id = key; title = r.title; completed = false; created = now; updated = now })
            r.user
            key
            w.state
          ≡ (ok t, s)
        → (handle_create st wiring fresh now r w).1.published
          ≡ w.published
            ++ record {
              op = create;
              user = r.user;
              content = some (record { id = t.id; title = t.title; completed = t.completed });
            }
              ∷ []
  unfolding handle_create
  create_published fresh now t s wired form titled done = ground (arith, done, eq_iff r.title "")

-- How a toggle that was answered with the list went: the todo was read, its flag patched to the
-- opposite, and the result of the patch published.
pub record Toggled {S : Type 0} (st : EntityStore S) (wiring : Wiring) (r : Request)
    (w w' : World S) (todos : List Todo) : Type 0 where
  pub current : Todo
  pub patched_todo : Todo
  pub read : S
  pub written : S
  pub was_read : st.get r.user r.id w.state ≡ (ok current, read)
  pub was_written :
      st.update r.user r.id (completed (not current.completed) ∷ []) read
      ≡ (ok patched_todo, written)
  pub listed : st.list r.user "all" written ≡ (ok todos, w'.state)
  pub published :
      w'.published
      ≡ publish wiring.publisher toggle r.user
          (some (record { id = patched_todo.id; title = ""; completed = patched_todo.completed }))
          w.published

module _ {S : Type 0} (st : EntityStore S) (wiring : Wiring) (r : Request) (w w' : World S)
    (todos : List Todo) (toast : Option Toast) where
  after_list-Toggled :
      (current t : Todo) (s s' : S) (x : Result (List Todo) × S)
      → st.get r.user r.id w.state ≡ (ok current, s)
      → st.update r.user r.id (completed (not current.completed) ∷ []) s ≡ (ok t, s')
      → st.list r.user "all" s' ≡ x
      → patch_and_publish st wiring r toggle
          (some (record { id = t.id; title = ""; completed = t.completed }))
          none
          x
          (record w { state = s' })
        ≡ (patched todos toast, w')
      → Toggled st wiring r w w' todos
  after_list-Toggled current t s s' (err e, s'') got put listed done = cc
  after_list-Toggled current t s s' (ok ts, s'') got put listed done =
      let same_todos : ts ≡ todos = cc in
      let same_state : s'' ≡ w'.state = ap (λ (p : Response × World S). p.1.state) done in
      record {
        current = current;
        patched_todo = t;
        read = s;
        written = s';
        was_read = got;
        was_written = put;
        listed = cc;
        published = ap (λ (p : Response × World S). p.1.published) (sym done);
      }

  after_update-Toggled :
      (current : Todo) (s : S) (x : Result Todo × S)
      → st.get r.user r.id w.state ≡ (ok current, s)
      → st.update r.user r.id (completed (not current.completed) ∷ []) s ≡ x
      → after_toggle st wiring r w x ≡ (patched todos toast, w')
      → Toggled st wiring r w w' todos
  after_update-Toggled current s (err e, s') got put done = cc
  after_update-Toggled current s (ok t, s') got put done = elim (Bool-cases r.replayed) [
    | inl again ↦ absurd (ground (arith, again))
    | inr first ↦ after_list-Toggled current t s s' _ got put refl (rw first at done)
  ]

  after_get-Toggled :
      (x : Result Todo × S)
      → st.get r.user r.id w.state ≡ x
      → toggle_found st wiring r w x ≡ (patched todos toast, w')
      → Toggled st wiring r w w' todos
  after_get-Toggled (err e, s) got done = cc
  after_get-Toggled (ok current, s) got done = after_update-Toggled current s _ got refl done

  pub toggle-Toggled :
      handle_toggle st wiring r w ≡ (patched todos toast, w') → Toggled st wiring r w w' todos
  unfolding handle_toggle
  toggle-Toggled done = after_get-Toggled _ refl done
