-- ===== src/Nats/Realtime.antt =====
-- internal/nats/realtime.go and inmemory.go: the broadcasters that carry ephemeral frames to the
-- hub. JetStream is a set of answers: whether it adds the stream, subscribes and takes a message.
-- `string_of` is Go's conversion of bytes to a string. A callback that panics has no result.
pub mod Relay
use cali_go_stack.Base.{
  ℕ, zero, suc, ◌+◌, ◌-◌, String, Bool, true, false, not, ◌&&◌, ◌||◌, Option, none, some, List, [],
  ◌∷◌, ◌++◌, ◌==◌, length, take, drop, ltb, nat_eq, if◌then◌else◌,
}
use cali_go_stack.Queue.Chan.{Bytes}
use cali_go_stack.Queue.Hub.{Hub, broadcast, broadcast_except}
use cali_go_stack.Store.Transport.{index_byte}

-- The byte at an index below the length.
unfoldable pub byte_at : Bytes → ℕ → ℕ
byte_at [] i = 0
byte_at (b ∷ bs) zero = b
byte_at (b ∷ bs) (suc i) = byte_at bs i

-- `message[low:high]`, which panics where the bounds are not in order.
abbrev pub slice : Bytes → ℕ → ℕ → Option Bytes
slice message low high =
    if ltb high low || ltb (length message) high
    then none
    else some (take (high - low) (drop low message))

module _ (string_of : Bytes → String) where
  -- The origin is known and is left out; without one the message goes to everybody.
  abbrev without_origin : Hub → Bytes → ℕ → Option Bytes → Option Hub
  without_origin h message idx none = none
  without_origin h message idx (some from) =
      let origin = string_of from in
      if origin == ""
      then some (broadcast h message)
      else some (broadcast_except h (drop (idx + 2) message) origin)

  abbrev tagged : Hub → Bytes → Option ℕ → Option Hub
  tagged h message none = some (broadcast h message)
  tagged h message (some idx) =
      if ltb (idx + 1) (length message) && nat_eq (byte_at message (idx + 1)) 0
      then without_origin h message idx (slice message 1 idx)
      else some (broadcast h message)

  -- The callback of Subscribe.
  unfoldable pub on_message : Hub → Bytes → Option Hub
  unfolding index_byte byte_at
  on_message h message =
      if ltb 0 (length message) && nat_eq (byte_at message 0) 0
      then tagged h message (index_byte 0 message)
      else some (broadcast h message)

-- Which broadcaster a process has; that of JetStream with the messages that its stream holds.
pub record JetStream : Type 0 where
  pub subscribed : Bool
  pub closed : Bool
  pub stored : List Bytes

pub data Broadcaster : Type 0 where
  in_memory : Broadcaster
  jet_stream : JetStream → Broadcaster

-- Subscribe: once, and not after Close. `accepted` is the server's answer.
unfoldable pub subscribe : (accepted : Bool) → Broadcaster → Broadcaster
subscribe accepted in_memory = in_memory
subscribe accepted (jet_stream b) =
    if b.closed || b.subscribed
    then jet_stream b
    else jet_stream (record b { subscribed = accepted })

unfoldable pub close : Broadcaster → Broadcaster
close in_memory = in_memory
close (jet_stream b) =
    if b.closed then jet_stream b else jet_stream (record b { subscribed = false; closed = true })

-- NewTodoBroadcaster: `none` is a nil JetStream; otherwise the error of AddStream, empty where
-- there is none, and whether the subscription is accepted.
unfoldable pub new_todo_broadcaster : Option (String × Bool) → Broadcaster
unfolding subscribe
new_todo_broadcaster none = in_memory
new_todo_broadcaster (some (failure, accepted)) =
    if failure == "" || failure == "stream already exists"
    then subscribe accepted
        (jet_stream (record { subscribed = false; closed = false; stored = [] }))
    else in_memory

-- PublishTodoUpdate: the in-memory broadcaster fans out at once, the other one hands the payload
-- to its stream. `taken` is the server's answer.
unfoldable pub publish_todo_update :
    (taken : Bool) → Bytes → Broadcaster → Hub → Bool × (Broadcaster × Hub)
publish_todo_update taken payload in_memory h = (true, (in_memory, broadcast h payload))
publish_todo_update taken payload (jet_stream b) h =
    if taken
    then (true, (jet_stream (record b { stored = b.stored ++ payload ∷ [] }), h))
    else (false, (jet_stream b, h))

-- The stream hands its oldest message to a subscription.
unfoldable pub deliver : (Bytes → String) → Broadcaster → Hub → Option (Broadcaster × Hub)
unfolding on_message
deliver string_of in_memory h = some (in_memory, h)
deliver string_of (jet_stream b) h = elim b.stored [
  | [] ↦ some (jet_stream b, h)
  | message ∷ rest ↦
      if b.subscribed
      then elim (on_message string_of h message) [
        | none ↦ none
        | some h' ↦ some (jet_stream (record b { stored = rest }), h')
      ]
      else some (jet_stream b, h)
]
