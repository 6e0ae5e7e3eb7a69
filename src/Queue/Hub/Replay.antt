-- ===== src/Queue/Hub/Replay.antt =====
-- What a client that was away finds when it comes back: the replay buffer as the latest events, and
-- its drain into the new channel.
use mathlib.Core.List.{append-nil, append_assoc}
use cali_go_stack.Base.{
  ℕ, zero, suc, ◌+◌, ◌-◌, ◌≤◌, ◌<◌, ◌≡◌, refl, sym, subst, ap, ◌∙◌, String, none, some, List, [],
  ◌∷◌, ◌++◌, map, arith, eq_iff, lookup, insert, lookup-insert, lookup-remove, length,
  length-append, take, drop, drop-append, leb, Bool-cases, latest, latest-append, latest_short,
  length-latest, take_all, drop_all, inl, inr,
}
use cali_go_stack.Queue.Chan.{Bytes, Channel, Channels}
use cali_go_stack.Queue.Hub.{
  Hub, Drop, slow_client_replay, buffered, offer, replay, register, ring, buffer_event, send, sends,
  run, step,
}
use cali_go_stack.Queue.Hub.Offer.{offer_room, offer_full}
use cali_go_stack.Queue.Hub.Invariant.{length-ring}
use cali_go_stack.Queue.Hub.Frame.{replay-SameTables}

-- What `onDrop` is told of events that found the channel full while they were replayed.
abbrev pub replay_drops : String → List Bytes → List Drop
replay_drops id = map λ event. record { client = id; event = event; reason = slow_client_replay }

-- Into a full channel nothing is replayed, and every event is reported.
replay_full :
    (h : Hub) (id : String) (ch : ℕ) (events : List Bytes)
    → (h.channels ch).capacity ≤ length (h.channels ch).pending
    → ((replay h id ch events).channels ch ≡ h.channels ch)
      × ((replay h id ch events).drops ≡ h.drops ++ replay_drops id events)
unfolding replay
replay_full h id ch [] full = (refl, sym (append-nil h.drops))
replay_full h id ch (event ∷ rest) full =
    let (same, reported) = offer_full h id ch event slow_client_replay full in
    let at = ap (λ (c : Channels). c ch) same in
    let (ch_same, dropped) =
      replay_full (offer h id ch event slow_client_replay) id ch rest (rw at full) in
    (ch_same ∙ at, dropped ∙ rw reported (append_assoc h.drops _ _))

replay_room :
    (room : ℕ) (h : Hub) (id : String) (ch : ℕ) (events : List Bytes)
    → room + length (h.channels ch).pending ≡ (h.channels ch).capacity
    → (((replay h id ch events).channels ch).pending ≡ (h.channels ch).pending ++ take room events)
      × ((replay h id ch events).drops ≡ h.drops ++ replay_drops id (drop room events))
unfolding replay
replay_room zero h id ch [] e = (sym (append-nil _), sym (append-nil h.drops))
replay_room (suc room) h id ch [] e = (sym (append-nil _), sym (append-nil h.drops))
replay_room zero h id ch (event ∷ rest) e =
    let (same, dropped) = replay_full h id ch (event ∷ rest) (omega arith) in
    (ap (λ (c : Channel). c.pending) same ∙ sym (append-nil _), dropped)
replay_room (suc room) h id ch (event ∷ rest) e =
    let h' = offer h id ch event slow_client_replay in
    let (sent, quiet) = offer_room h id ch event slow_client_replay (omega arith) in
    let (pending, dropped) =
      replay_room room h' id ch rest
        (rw sent (omega (arith, length-append (h.channels ch).pending (event ∷ [])))) in
    (pending ∙ rw sent (append_assoc (h.channels ch).pending _ _), dropped ∙ rw quiet)

-- On a buffer within its size the ring keeps the latest events.
ring-eq-latest :
    (max : ℕ) (buf : List Bytes) (event : Bytes)
    → 0 < max
    → length buf ≤ max
    → ring max buf event ≡ latest max (buf ++ event ∷ [])
unfolding ring
ring-eq-latest max buf event p h = elim (Bool-cases (leb max (length buf))) [
  | inl full ↦
      let one : 1 ≡ length (buf ++ event ∷ []) - max =
        ground (arith, length-append buf (event ∷ [])) in
      rw full (
        sym (drop-append 1 buf (event ∷ []) (ground arith))
        ∙ ap (λ k. drop k (buf ++ event ∷ [])) one)
  | inr spare ↦
      let zero : 0 ≡ length (buf ++ event ∷ []) - max =
        ground (arith, length-append buf (event ∷ [])) in
      rw spare (ap (λ k. drop k (buf ++ event ∷ [])) zero)
]

-- A send to a client that is away goes to its ring.
send_away :
    (h : Hub) (id : String) (event : Bytes)
    → lookup id h.clients ≡ none
    → 0 < h.max_buffer
    → send h id event
      ≡ record h { buffer = insert id (ring h.max_buffer (buffered h id) event) h.buffer }
unfolding send buffer_event
send_away h id event away p = rw (away, send) (ground arith)

-- Hub `k` is `h` but that it kept the latest of `events` for the client.
abbrev pub Caught : Hub → String → List Bytes → Hub → Type 0
Caught h id events k =
    (buffered k id ≡ latest h.max_buffer (buffered h id ++ events))
    × (k.channels ≡ h.channels)
    × (k.drops ≡ h.drops)
    × (k.max_buffer ≡ h.max_buffer)
    × (lookup id k.clients ≡ none)

-- While a client is away, its buffer holds the latest of the events that are sent to it, up to the
-- ring's size, and no event is reported as dropped.
pub sends-Caught :
    (h : Hub) (id : String) (events : List Bytes)
    → lookup id h.clients ≡ none
    → 0 < h.max_buffer
    → length (buffered h id) ≤ h.max_buffer
    → Caught h id events (run h (map (sends id) events))
unfolding run step
sends-Caught h id [] away p bound =
    (sym (rw append-nil (latest_short h.max_buffer (buffered h id) bound)), refl, refl, refl, away)
sends-Caught h id (event ∷ rest) away p bound =
    let kept = ring h.max_buffer (buffered h id) event in
    let h' = record h { buffer = insert id kept h.buffer } in
    let found : buffered h' id ≡ kept =
      ground (arith, lookup-insert id id kept h.buffer, eq_iff id id) in
    let short : length (buffered h' id) ≤ h.max_buffer =
      rw found (length-ring h.max_buffer (buffered h id) event p bound) in
    let ih = sends-Caught h' id rest away p short in
    subst (λ k. Caught h id (event ∷ rest) (run k (map (sends id) rest)))
      (sym (send_away h id event away p))
      (
        ih.0
            ∙ ap (λ (buf : List Bytes). latest h.max_buffer (buf ++ rest))
                (found ∙ ring-eq-latest h.max_buffer (buffered h id) event p bound)
            ∙ latest-append h.max_buffer (buffered h id ++ event ∷ []) rest
            ∙ ap (latest h.max_buffer) (append_assoc (buffered h id) _ _),
        ih.1,
        ih.2,
        ih.3,
        ih.4,
      )

-- Register on a channel within its capacity hands the client's replay buffer over in order: as
-- many events as there is room for join the channel, the others are reported, the buffer is
-- gone, and the client's channel and user are those of the call.
pub register_drains :
    (h : Hub) (id user : String) (ch room : ℕ)
    → room + length (h.channels ch).pending ≡ (h.channels ch).capacity
    → let h' = register h id user ch in
      ((h'.channels ch).pending ≡ (h.channels ch).pending ++ take room (buffered h id))
      × (h'.drops ≡ h.drops ++ replay_drops id (drop room (buffered h id)))
      × (buffered h' id ≡ [])
      × (lookup id h'.clients ≡ some ch)
      × (lookup id h'.user_of ≡ some user)
unfolding register
register_drains h id user ch room e =
    let h' : Hub = record h {
      clients = insert id ch h.clients;
      user_of = insert id user h.user_of;
    } in
    let s = replay-SameTables h' id ch (buffered h id) in
    let drained = replay_room room h' id ch (buffered h id) e in
    (
      drained.0,
      drained.1,
      ground (arith, s.buffer, lookup-remove id id h.buffer, eq_iff id id),
      rw s.clients (ground (arith, lookup-insert id id ch h.clients, eq_iff id id)),
      rw s.user_of (ground (arith, lookup-insert id id user h.user_of, eq_iff id id)),
    )

-- Where the ring holds at least one event, and the client's buffer is within its size: a client
-- that was away while `events` were sent to it, and that comes back on a channel with room for a
-- whole ring, finds the latest of what was buffered and sent in its channel, in order; no event
-- is reported as dropped, and the buffer is empty.
pub reconnect_replays :
    (h : Hub) (id user : String) (ch room : ℕ) (events : List Bytes)
    → lookup id h.clients ≡ none
    → 0 < h.max_buffer
    → length (buffered h id) ≤ h.max_buffer
    → h.max_buffer ≤ room
    → room + length (h.channels ch).pending ≡ (h.channels ch).capacity
    → let h' = register (run h (map (sends id) events)) id user ch in
      ((h'.channels ch).pending
        ≡ (h.channels ch).pending ++ latest h.max_buffer (buffered h id ++ events))
      × (h'.drops ≡ h.drops)
      × (buffered h' id ≡ [])
reconnect_replays h id user ch room events away p bound fits e =
    let k = run h (map (sends id) events) in
    let c = sends-Caught h id events away p bound in
    let d = register_drains k id user ch room (rw c.1 e) in
    let short : length (buffered k id) ≤ room =
      rw c.0 (omega (arith, length-latest h.max_buffer (buffered h id ++ events))) in
    (
      d.0 ∙ rw (take_all room (buffered k id) short, c.0, c.1),
      d.1 ∙ rw (drop_all room (buffered k id) short, c.2) (append-nil h.drops),
      d.2,
    )
