-- ===== src/Handlers/Abstract.antt =====
-- The handlers over any strategy that keeps the contract of the store.
use cali_go_stack.Base.{true, ◌≡◌, ◌≢◌, subst, not, Option, some, none, List, ◌∷◌, [], arith}
use cali_go_stack.Store.Entity.{Todo, Result, ok, completed, EntityStore}
use cali_go_stack.Store.App.{All}
use cali_go_stack.Store.Contract.{All-first, shown_by, Todos, put, read, Refines}
use cali_go_stack.Handlers.{Request, World, Wiring, Toast, handle_toggle, patched}
use cali_go_stack.Handlers.Replay.{toggle-Toggled}

module _ {S : Type 0} (st : EntityStore S) (wiring : Wiring) (r : Request) (R : S → Todos → Type 0)
    (contract : Refines st r.user R) where
  found_in :
      (x : Option Todo) (t : Todo) (s s' : S) (p : Result Todo × S)
      → p ≡ (read x, s)
      → p ≡ (ok t, s')
      → (x ≡ some t) × (s ≡ s')
  found_in none t s s' p answer got = absurd (ground (arith, answer, got))
  found_in (some u) t s s' p answer got = (cc, cc)

  -- Over any strategy that refines the map of the user's todos: a toggle that is answered with the
  -- list found the todo of that id in the map, the map has afterwards in its place a todo of that
  -- id with the opposite flag and is otherwise as before, and the list that the response shows has
  -- only todos of the new map.
  pub toggle_refined :
      (w w' : World S) (m : Todos) (todos : List Todo) (toast : Option Toast)
      → R w.state m
      → r.id ≢ ""
      → handle_toggle st wiring r w ≡ (patched todos toast, w')
      → (before after : Todo) × (m r.id ≡ some before)
        × (after.id ≡ r.id)
        × (after.completed ≡ not before.completed)
        × R w'.state (put after m)
        × All (λ t. put after m t.id ≡ some t) todos
  toggle_refined w w' m todos toast held told done =
      let t = toggle-Toggled st wiring r w w' todos toast done in
      let (found, same) =
        found_in (m r.id) t.current w.state t.read (st.get r.user r.id w.state)
          (contract.get w.state m r.id held told) t.was_read in
      let held' = subst (λ s. R s m) same held in
      let b = not t.current.completed in
      let (changed, same_id, _) =
        contract.update t.read t.written m r.id (completed b ∷ []) t.patched_todo held' told
          (tt, tt) t.was_written in
      let flagged =
        contract.flag t.read t.written m r.id b t.patched_todo held' told t.was_written in
      let (shown, all_there, every) =
        contract.list t.written w'.state (put t.patched_todo m) "all" todos changed t.listed in
      (
        t.current,
        t.patched_todo,
        found,
        same_id,
        flagged,
        shown,
        All-first (λ x. put t.patched_todo m x.id ≡ some x) (λ t. shown_by "all" t ≡ true) todos
            all_there,
      )
