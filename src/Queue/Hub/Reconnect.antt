-- ===== src/Queue/Hub/Reconnect.antt =====
-- Reconnects: a handler that ends late cannot take a newer registration away.
use cali_go_stack.Base.{
  ℕ, ◌≡◌, ◌≢◌, String, Bool, some, List, [], ◌∷◌, ◌⊎◌, arith, eq_iff, lookup, insert, lookup-insert,
  lookup-remove,
}
use cali_go_stack.Queue.Chan.{Bytes}
use cali_go_stack.Queue.Hub.{
  Hub, Reason, Call, registers, unregisters, unregisters_if_current, sends, sends_ctx,
  sends_blocking, offers, buffers, broadcasts, broadcasts_except, broadcasts_to_user, receives,
  is_current, register, unregister, unregister_if_current, buffer_event, on_drop, send, send_ctx,
  send_blocking, settled, offer, broadcast, broadcast_except, broadcast_to_user, buffered, step,
  run,
}
use cali_go_stack.Queue.Hub.Frame.{replay-SameTables, fan_out-SameTables}

-- The calls that leave the registration of a client on channel `ch` alone: all but a registration
-- of that client, its outright removal, and a removal that names `ch`.
abbrev pub Keeps : String → ℕ → Call → Type 0
Keeps id ch (registers j user c) = j ≢ id
Keeps id ch (unregisters j) = j ≢ id
Keeps id ch (unregisters_if_current j c) = (j ≢ id) ⊎ (c ≢ ch)
Keeps id ch _ = Unit

abbrev pub AllKeep : String → ℕ → List Call → Type 0
AllKeep id ch [] = Unit
AllKeep id ch (c ∷ cs) = Keeps id ch c × AllKeep id ch cs

clients-send : (h : Hub) (id : String) (event : Bytes) → (send h id event).clients ≡ h.clients
unfolding send on_drop buffer_event
clients-send h id event = ground arith

clients-buffer_event :
    (h : Hub) (id : String) (event : Bytes) → (buffer_event h id event).clients ≡ h.clients
unfolding buffer_event
clients-buffer_event h id event = ground arith

clients-offer :
    (h : Hub) (id : String) (ch : ℕ) (event : Bytes) (r : Reason)
    → (offer h id ch event r).clients ≡ h.clients
unfolding offer on_drop
clients-offer h id ch event r = ground arith

clients-send_blocking :
    (done prefer_done : Bool) (h : Hub) (id : String) (event : Bytes)
    → (settled h (send_blocking done prefer_done h id event)).clients ≡ h.clients
unfolding send_blocking on_drop buffer_event
clients-send_blocking done prefer_done h id event = ground arith

pub clients-register :
    (h : Hub) (id user : String) (ch : ℕ) → (register h id user ch).clients ≡ insert id ch h.clients
unfolding register
clients-register h id user ch =
    let h' : Hub = record h {
      clients = insert id ch h.clients;
      user_of = insert id user h.user_of;
    } in
    (replay-SameTables h' id ch (buffered h id)).clients

step-Keeps :
    (h : Hub) (id : String) (ch : ℕ) (c : Call)
    → Keeps id ch c
    → lookup id h.clients ≡ some ch
    → lookup id (step h c).clients ≡ some ch
unfolding step
step-Keeps h id ch (registers j user c) k e =
    rw clients-register (ground (arith, lookup-insert j id c h.clients, eq_iff j id))
step-Keeps h id ch (unregisters j) k e =
    unfold unregister in ground (arith, lookup-remove j id h.clients, eq_iff j id)
step-Keeps h id ch (unregisters_if_current j c) k e =
    unfold unregister_if_current unregister in
    ground (arith, lookup-remove j id h.clients, eq_iff j id)
step-Keeps h id ch (sends j event) k e = rw clients-send e
step-Keeps h id ch (sends_ctx cancelled j event) k e =
    unfold send_ctx in ground (arith, clients-send h j event)
step-Keeps h id ch (sends_blocking done prefer_done j event) k e =
    rw (clients-send_blocking done prefer_done h j event) e
step-Keeps h id ch (offers j c event r) k e = rw (clients-offer h j c event r) e
step-Keeps h id ch (buffers j event) k e = rw (clients-buffer_event h j event) e
step-Keeps h id ch (broadcasts event) k e =
    unfold broadcast in rw (fan_out-SameTables _ _ event _ h).clients e
step-Keeps h id ch (broadcasts_except event exclude) k e =
    unfold broadcast_except in rw (fan_out-SameTables _ _ event _ h).clients e
step-Keeps h id ch (broadcasts_to_user event user exclude) k e =
    unfold broadcast_to_user in rw (fan_out-SameTables _ _ event _ h).clients e
step-Keeps h id ch (receives c) k e = e

-- A registration lasts: through any calls that leave it alone, by any handlers in any order, the
-- client stays registered on its channel.
pub run_keeps :
    (h : Hub) (id : String) (ch : ℕ) (cs : List Call)
    → AllKeep id ch cs
    → lookup id h.clients ≡ some ch
    → lookup id (run h cs).clients ≡ some ch
unfolding run
run_keeps h id ch [] k e = e
run_keeps h id ch (c ∷ cs) k e = run_keeps (step h c) id ch cs k.1 (step-Keeps h id ch c k.0 e)

-- The race of a reconnect: a tab registers on a new channel, calls follow of which none
-- registers the tab again, removes it outright, or removes it naming the new channel, and then
-- the handler of its old, other channel ends and removes the client if it is current. That
-- removal changes nothing, and the client is registered on the new channel.
pub stale_handler_keeps :
    (h : Hub) (id user : String) (old new : ℕ) (cs : List Call)
    → old ≢ new
    → AllKeep id new cs
    → let h' = run (register h id user new) cs in
      (unregister_if_current h' id old ≡ h') × (lookup id h'.clients ≡ some new)
stale_handler_keeps h id user old new cs ne k =
    let fresh : lookup id (register h id user new).clients ≡ some new =
      rw clients-register (ground (arith, lookup-insert id id new h.clients, eq_iff id id)) in
    let kept = run_keeps (register h id user new) id new cs k fresh in
    (unfold unregister_if_current in rw (kept, is_current) (ground arith), kept)
