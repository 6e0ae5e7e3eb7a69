-- ===== src/Queue/Hub/Invariant.antt =====
-- The invariant of the hub's tables, through every history of calls.
use cali_go_stack.Base.{
  ℕ, ◌≤◌, ◌<◌, ◌≡◌, refl, String, Bool, true, false, Option, none, some, List, [], ◌∷◌, arith,
  eq_iff, lookup, insert, Distinct, lookup-insert, lookup-remove, insert-Distinct, remove-Distinct,
  length, length-append, length-drop, drop, Option-cases, inl, inr,
}
use cali_go_stack.Queue.Chan.{Bytes, Channels, try_send}
use cali_go_stack.Queue.Hub.{
  Hub, Reason, Call, registers, unregisters, unregisters_if_current, sends, sends_ctx,
  sends_blocking, offers, buffers, broadcasts, broadcasts_except, broadcasts_to_user, receives,
  new_hub, buffered, register, unregister, unregister_if_current, ring, buffer_event, send,
  send_ctx, send_blocking, settled, offer, slow_client, broadcast, broadcast_except,
  broadcast_to_user, on_drop, step, run,
}
use cali_go_stack.Queue.Hub.Frame.{
  SameTables, offer-SameTables, replay-SameTables, fan_out-SameTables,
}

abbrev pub is_some {ℓ} : {A : Type ℓ} → Option A → Bool
is_some none = false
is_some (some a) = true

-- Every buffer is within the ring's size; the clients with a channel are those with a user; and no
-- map holds a key twice.
pub record IsValid (h : Hub) : Type 0 where
  pub bounded : (id : String) → length (buffered h id) ≤ h.max_buffer
  pub paired : (id : String) → is_some (lookup id h.clients) ≡ is_some (lookup id h.user_of)
  pub clients_distinct : Distinct h.clients
  pub users_distinct : Distinct h.user_of
  pub buffers_distinct : Distinct h.buffer

SameTables-IsValid : {h k : Hub} → SameTables h k → IsValid h → IsValid k
SameTables-IsValid {h} {k} s v = record {
  bounded = λ id. rw (s.buffer, s.max_buffer) (v.bounded id);
  paired = λ id. rw (s.clients, s.user_of) (v.paired id);
  clients_distinct = rw s.clients v.clients_distinct;
  users_distinct = rw s.user_of v.users_distinct;
  buffers_distinct = rw s.buffer v.buffers_distinct;
}

-- One more event in a ring of at least one place keeps it within its size.
pub length-ring :
    (max : ℕ) (buf : List Bytes) (event : Bytes)
    → 0 < max
    → length buf ≤ max
    → length (ring max buf event) ≤ max
unfolding ring
length-ring max buf event p h = ground (
  arith,
  length-append (drop 1 buf) (event ∷ []),
  length-append buf (event ∷ []),
  length-drop 1 buf,
)

on_drop-IsValid :
    (h : Hub) (id : String) (event : Bytes) (r : Reason)
    → IsValid h
    → IsValid (on_drop h id event r)
unfolding on_drop
on_drop-IsValid h id event r v = SameTables-IsValid {h = h} (ground arith) v

buffer_event-IsValid :
    (h : Hub) (id : String) (event : Bytes) → IsValid h → IsValid (buffer_event h id event)
unfolding buffer_event
buffer_event-IsValid h id event v = record {
  bounded = λ j. ground (
    arith,
    v.bounded j,
    v.bounded id,
    eq_iff id j,
    lookup-insert id j (ring h.max_buffer (buffered h id) event) h.buffer,
    length-ring h.max_buffer (buffered h id) event,
  );
  paired = λ j. ground (arith, v.paired j);
  clients_distinct = ground (arith, v.clients_distinct);
  users_distinct = ground (arith, v.users_distinct);
  buffers_distinct = ground (
    arith,
    v.buffers_distinct,
    insert-Distinct id (ring h.max_buffer (buffered h id) event) h.buffer v.buffers_distinct,
  );
}

send-IsValid : (h : Hub) (id : String) (event : Bytes) → IsValid h → IsValid (send h id event)
unfolding send
send-IsValid h id event v = elim (Option-cases (lookup id h.clients)) [
  | inl missing ↦ rw (missing, send) (buffer_event-IsValid h id event v)
  | inr (ch, found) ↦ elim (Option-cases (try_send h.channels ch event)) [
    | inl full ↦
        rw (found, send)
          (rw full (
            buffer_event-IsValid (on_drop h id event slow_client) id event
              (on_drop-IsValid h id event slow_client v)))
    | inr (channels, sent) ↦
        rw (found, send) (rw sent (SameTables-IsValid {h = h} (ground arith) v))
  ]
]

unregister-IsValid : (h : Hub) (id : String) → IsValid h → IsValid (unregister h id)
unfolding unregister
unregister-IsValid h id v = record {
  bounded = λ j. ground (arith, v.bounded j, eq_iff id j, lookup-remove id j h.buffer);
  paired =
      λ j. ground (arith, v.paired j, lookup-remove id j h.clients, lookup-remove id j h.user_of);
  clients_distinct = remove-Distinct id h.clients v.clients_distinct;
  users_distinct = remove-Distinct id h.user_of v.users_distinct;
  buffers_distinct = remove-Distinct id h.buffer v.buffers_distinct;
}

unregister_if_current-IsValid :
    (h : Hub) (id : String) (ch : ℕ) → IsValid h → IsValid (unregister_if_current h id ch)
unfolding unregister_if_current
unregister_if_current-IsValid h id ch v = ground (arith, unregister-IsValid h id v)

register-IsValid :
    (h : Hub) (id user : String) (ch : ℕ) → IsValid h → IsValid (register h id user ch)
unfolding register
register-IsValid h id user ch v =
    let h' : Hub = record h {
      clients = insert id ch h.clients;
      user_of = insert id user h.user_of;
    } in
    let s = replay-SameTables h' id ch (buffered h id) in
    record {
      bounded = λ j.
          rw (s.buffer, s.max_buffer)
            (ground (arith, v.bounded j, eq_iff id j, lookup-remove id j h.buffer));
      paired = λ j.
          rw (s.clients, s.user_of)
            (ground (
              arith,
              v.paired j,
              lookup-insert id j ch h.clients,
              lookup-insert id j user h.user_of,
            ));
      clients_distinct = rw s.clients (insert-Distinct id ch h.clients v.clients_distinct);
      users_distinct = rw s.user_of (insert-Distinct id user h.user_of v.users_distinct);
      buffers_distinct = rw s.buffer (remove-Distinct id h.buffer v.buffers_distinct);
    }

send_ctx-IsValid :
    (cancelled : Bool) (h : Hub) (id : String) (event : Bytes)
    → IsValid h
    → IsValid (send_ctx cancelled h id event)
unfolding send_ctx
send_ctx-IsValid true h id event v = v
send_ctx-IsValid false h id event v = send-IsValid h id event v

offer-IsValid :
    (h : Hub) (id : String) (ch : ℕ) (event : Bytes) (r : Reason)
    → IsValid h
    → IsValid (offer h id ch event r)
unfolding offer
offer-IsValid h id ch event r v = SameTables-IsValid (offer-SameTables h id ch event r) v

-- A send to a registered client ends or waits with the tables as they were.
send_blocking-SameTables :
    (done prefer_done : Bool) (h : Hub) (id : String) (event : Bytes) (ch : ℕ)
    → lookup id h.clients ≡ some ch
    → SameTables h (settled h (send_blocking done prefer_done h id event))
unfolding send_blocking on_drop
send_blocking-SameTables done prefer_done h id event ch found = ground (arith, found)

send_blocking-IsValid :
    (done prefer_done : Bool) (h : Hub) (id : String) (event : Bytes)
    → IsValid h
    → IsValid (settled h (send_blocking done prefer_done h id event))
unfolding send_blocking
send_blocking-IsValid done prefer_done h id event v = elim (Option-cases (lookup id h.clients)) [
  | inl missing ↦ rw (missing, send_blocking) (buffer_event-IsValid h id event v)
  | inr (ch, found) ↦
      SameTables-IsValid (send_blocking-SameTables done prefer_done h id event ch found) v
]

step-IsValid : (h : Hub) (c : Call) → IsValid h → IsValid (step h c)
unfolding step broadcast broadcast_except broadcast_to_user
step-IsValid h (registers id user ch) v = register-IsValid h id user ch v
step-IsValid h (unregisters id) v = unregister-IsValid h id v
step-IsValid h (unregisters_if_current id ch) v = unregister_if_current-IsValid h id ch v
step-IsValid h (sends id event) v = send-IsValid h id event v
step-IsValid h (sends_ctx cancelled id event) v = send_ctx-IsValid cancelled h id event v
step-IsValid h (sends_blocking done prefer_done id event) v =
    send_blocking-IsValid done prefer_done h id event v
step-IsValid h (offers id ch event r) v = offer-IsValid h id ch event r v
step-IsValid h (buffers id event) v = buffer_event-IsValid h id event v
step-IsValid h (broadcasts event) v = SameTables-IsValid (fan_out-SameTables _ _ event _ h) v
step-IsValid h (broadcasts_except event exclude) v =
    SameTables-IsValid (fan_out-SameTables _ _ event _ h) v
step-IsValid h (broadcasts_to_user event user exclude) v =
    SameTables-IsValid (fan_out-SameTables _ _ event _ h) v
step-IsValid h (receives ch) v = SameTables-IsValid {h = h} (ground arith) v

run-IsValid : (h : Hub) (cs : List Call) → IsValid h → IsValid (run h cs)
unfolding run
run-IsValid h [] v = v
run-IsValid h (c ∷ cs) v = run-IsValid (step h c) cs (step-IsValid h c v)

new_hub-IsValid : (size : Option ℕ) (channels : Channels) → IsValid (new_hub size channels)
unfolding new_hub lookup
new_hub-IsValid size channels = record {
  bounded = λ j. omega arith;
  paired = λ j. refl;
  clients_distinct = tt;
  users_distinct = tt;
  buffers_distinct = tt;
}

-- After any history of calls on a new hub, of every method that writes to it, with Send and
-- SendBlocking in one step or in parts that other calls come between, every replay buffer is within the ring's size, the
-- clients that have a channel are exactly those that have a user, and no table holds a key twice.
pub run-new_hub-IsValid :
    (size : Option ℕ) (channels : Channels) (cs : List Call)
    → IsValid (run (new_hub size channels) cs)
run-new_hub-IsValid size channels cs =
    run-IsValid (new_hub size channels) cs (new_hub-IsValid size channels)
