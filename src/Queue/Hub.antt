-- ===== src/Queue/Hub.antt =====
-- internal/queue/ssehub.go: the clients, their replay buffers and the fan-out. Each function is the
-- body of one method, and all but Send and SendBlocking hold the lock for all of it. Those two let it
-- go before they touch the channel: `send` and `send_blocking` are the runs in which no other call
-- comes in between, and the calls `offers` and `buffers` are their later parts on their own, on
-- whatever channel was looked up before. A hub's `onDrop` callback is the list `drops` of what it was
-- called with, newest last. The methods range over Go maps, whose order is not specified: the order
-- here is that of the association list. A negative buffer size is taken for zero, which the code
-- treats alike. What is logged is left out.

pub mod Frame
pub mod Offer
pub mod Invariant
pub mod Replay
pub mod Scope
pub mod Sending
pub mod Reconnect
use cali_go_stack.Base.{
  ℕ, zero, suc, ◌+◌, String, Bool, true, false, not, ◌&&◌, Option, none, some, List, [], ◌∷◌, ◌++◌,
  ◌==◌, Assoc, lookup, insert, remove, length, drop, leb, ltb, nat_eq, if◌then◌else◌,
}
use cali_go_stack.Queue.Chan.{Bytes, Channels, try_send, receive}

-- Why an event was dropped: the reasons that the code passes to `onDrop`.
pub data Reason : Type 0 where
  slow_client_replay slow_client slow_client_broadcast slow_client_broadcast_user : Reason
  send_blocking_cancelled replay_disabled : Reason

-- One call of `onDrop`.
pub record Drop : Type 0 where
  pub client : String
  pub event : Bytes
  pub reason : Reason

-- The hub, with the heap of channels that its clients hold.
pub record Hub : Type 0 where
  pub clients : Assoc ℕ
  pub buffer : Assoc (List Bytes)
  pub user_of : Assoc String
  pub max_buffer : ℕ
  pub channels : Channels
  pub drops : List Drop

-- config.DefaultReplayBufferSize
abbrev pub default_replay_buffer_size : ℕ
default_replay_buffer_size = 64

-- NewSSEHub: without options, or with WithReplayBufferSize(n).
unfoldable pub new_hub : Option ℕ → Channels → Hub
new_hub size channels = record {
  clients = [];
  buffer = [];
  user_of = [];
  max_buffer = elim size [ none ↦ default_replay_buffer_size | some n ↦ n ];
  channels = channels;
  drops = [];
}

unfoldable pub on_drop : Hub → String → Bytes → Reason → Hub
on_drop h id event reason = record h {
  drops = h.drops ++ record { client = id; event = event; reason = reason } ∷ [];
}

-- What h.buffer[id] holds; a missing key is the nil slice.
abbrev pub or_nil {ℓ} : {A : Type ℓ} → Option (List A) → List A
or_nil none = []
or_nil (some xs) = xs

abbrev pub buffered : Hub → String → List Bytes
buffered h id = or_nil (lookup id h.buffer)

-- `select { case ch <- event: default: h.onDrop(id, event, reason) }`
abbrev after_try : Hub → String → Bytes → Reason → Option Channels → Hub
after_try h id event reason (some channels) = record h { channels = channels }
after_try h id event reason none = on_drop h id event reason

unfoldable pub offer : Hub → String → ℕ → Bytes → Reason → Hub
unfolding try_send on_drop
offer h id ch event reason = after_try h id event reason (try_send h.channels ch event)

-- The loop of Register over the replay buffer.
unfoldable pub replay : Hub → String → ℕ → List Bytes → Hub
unfolding offer
replay h id ch [] = h
replay h id ch (event ∷ rest) = replay (offer h id ch event slow_client_replay) id ch rest

unfoldable pub register : Hub → String → String → ℕ → Hub
register h id user ch =
    let h' = record h { clients = insert id ch h.clients; user_of = insert id user h.user_of } in
    let replayed = replay h' id ch (buffered h id) in
    record replayed { buffer = remove id replayed.buffer }

unfoldable pub unregister : Hub → String → Hub
unregister h id = record h {
  clients = remove id h.clients;
  buffer = remove id h.buffer;
  user_of = remove id h.user_of;
}

-- h.clients[id] == ch
abbrev pub is_current : Hub → String → ℕ → Bool
is_current h id ch = elim (lookup id h.clients) [ none ↦ false | some c ↦ nat_eq c ch ]

unfoldable pub unregister_if_current : Hub → String → ℕ → Hub
unregister_if_current h id ch = if is_current h id ch then unregister h id else h

-- The ring: the oldest event goes when the buffer is full.
unfoldable pub ring : ℕ → List Bytes → Bytes → List Bytes
ring max buf event = (if leb max (length buf) then drop 1 buf else buf) ++ event ∷ []

unfoldable pub buffer_event : Hub → String → Bytes → Hub
unfolding on_drop
buffer_event h id event =
    if nat_eq h.max_buffer 0
    then on_drop h id event replay_disabled
    else record h { buffer = insert id (ring h.max_buffer (buffered h id) event) h.buffer }

abbrev after_send : Hub → String → Bytes → Option Channels → Hub
after_send h id event (some channels) = record h { channels = channels }
after_send h id event none = buffer_event (on_drop h id event slow_client) id event

unfoldable pub send : Hub → String → Bytes → Hub
send h id event = elim (lookup id h.clients) [
  | none ↦ buffer_event h id event
  | some ch ↦ after_send h id event (try_send h.channels ch event)
]

-- The flag is whether the context is done already.
unfoldable pub send_ctx : Bool → Hub → String → Bytes → Hub
send_ctx cancelled h id event = if cancelled then h else send h id event

-- How SendBlocking ends at the moment that its `select` is looked at.
pub data Blocking : Type 0 where
  returned : Hub → Blocking
  cancelled_with : Hub → Blocking
  waits : Blocking

abbrev after_full : Bool → Hub → String → Bytes → Blocking
after_full true h id event = cancelled_with (on_drop h id event send_blocking_cancelled)
after_full false h id event = waits

-- `prefer_done` is the choice of the runtime where both cases of the `select` are ready.
unfoldable pub send_blocking : (done prefer_done : Bool) → Hub → String → Bytes → Blocking
send_blocking done prefer_done h id event = elim (lookup id h.clients) [
  | none ↦ returned (buffer_event h id event)
  | some ch ↦ elim (try_send h.channels ch event) [
    | none ↦ after_full done h id event
    | some channels ↦
        if done && prefer_done
        then after_full true h id event
        else returned (record h { channels = channels })
  ]
]

-- The loop of the three broadcasts over a snapshot of the clients.
unfoldable pub fan_out : (String → Bool) → Reason → Bytes → Assoc ℕ → Hub → Hub
unfolding offer
fan_out wanted reason event [] h = h
fan_out wanted reason event ((id, ch) ∷ rest) h =
    fan_out wanted reason event rest (if wanted id then offer h id ch event reason else h)

unfoldable pub broadcast_except : Hub → Bytes → String → Hub
broadcast_except h event exclude =
    fan_out (λ id. not (id == exclude)) slow_client_broadcast event h.clients h

unfoldable pub broadcast : Hub → Bytes → Hub
broadcast h event = fan_out (λ id. true) slow_client_broadcast event h.clients h

-- h.userOf[id], with the empty text for a missing key.
abbrev pub or_empty : Option String → String
or_empty none = ""
or_empty (some s) = s

abbrev pub belongs : Hub → String → String → Bool
belongs h user id = or_empty (lookup id h.user_of) == user

unfoldable pub broadcast_to_user : Hub → Bytes → String → String → Hub
broadcast_to_user h event user exclude =
    fan_out (λ id. not (id == exclude) && belongs h user id) slow_client_broadcast_user event
      h.clients h

unfoldable pub is_registered : Hub → String → Bool
is_registered h id = elim (lookup id h.clients) [ none ↦ false | some ch ↦ true ]

pub record Stats : Type 0 where
  pub clients : ℕ
  pub buffered_clients : ℕ
  pub buffered_events : ℕ

count_buffers : Assoc (List Bytes) → Stats → Stats
count_buffers [] s = s
count_buffers ((id, buf) ∷ rest) s = count_buffers rest (
    if ltb 0 (length buf)
    then record s {
      buffered_clients = s.buffered_clients + 1;
      buffered_events = s.buffered_events + length buf;
    }
    else s)

unfoldable pub stats : Hub → Stats
unfolding count_buffers
stats h =
    count_buffers h.buffer
      (record { clients = length h.clients; buffered_clients = 0; buffered_events = 0 })

count_users : Assoc String → ℕ → ℕ
count_users [] n = n
count_users ((id, user) ∷ rest) n = count_users rest (if user == "" then n else n + 1)

unfoldable pub count_user_clients : Hub → ℕ
unfolding count_users
count_user_clients h = count_users h.user_of 0

-- What SendBlocking leaves; while it waits it has done nothing.
abbrev pub settled : Hub → Blocking → Hub
settled h (returned h') = h'
settled h (cancelled_with h') = h'
settled h waits = h

-- A call of the hub by any producer or handler, a part of Send or SendBlocking that comes after the
-- lock was let go, or a client that takes the oldest event out of its channel.
pub data Call : Type 0 where
  registers : String → String → ℕ → Call
  unregisters : String → Call
  unregisters_if_current : String → ℕ → Call
  sends : String → Bytes → Call
  sends_ctx : Bool → String → Bytes → Call
  sends_blocking : (done prefer_done : Bool) → String → Bytes → Call
  offers : String → ℕ → Bytes → Reason → Call
  buffers : String → Bytes → Call
  broadcasts : Bytes → Call
  broadcasts_except : Bytes → String → Call
  broadcasts_to_user : Bytes → String → String → Call
  receives : ℕ → Call

unfoldable pub step : Hub → Call → Hub
step h (registers id user ch) = register h id user ch
step h (unregisters id) = unregister h id
step h (unregisters_if_current id ch) = unregister_if_current h id ch
step h (sends id event) = send h id event
step h (sends_ctx cancelled id event) = send_ctx cancelled h id event
step h (sends_blocking done prefer_done id event) =
    settled h (send_blocking done prefer_done h id event)
step h (offers id ch event reason) = offer h id ch event reason
step h (buffers id event) = buffer_event h id event
step h (broadcasts event) = broadcast h event
step h (broadcasts_except event exclude) = broadcast_except h event exclude
step h (broadcasts_to_user event user exclude) = broadcast_to_user h event user exclude
step h (receives ch) = record h { channels = receive h.channels ch }

unfoldable pub run : Hub → List Call → Hub
run h [] = h
run h (c ∷ cs) = run (step h c) cs

-- Everything that a test computes with.
unfoldable pub program : Unit {0}
unfolding new_hub on_drop try_send offer replay register unregister unregister_if_current ring
    buffer_event send send_ctx send_blocking fan_out broadcast broadcast_except broadcast_to_user
    is_registered stats count_user_clients receive step run lookup insert remove
program = tt
