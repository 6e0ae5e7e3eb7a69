-- ===== src/Nats/Realtime/Relay.antt =====
-- What the hub gets of a payload, by either broadcaster.
use cali_go_stack.Base.{
  ◌≡◌, refl, String, Bool, true, false, ◌&&◌, some, none, [], ◌∷◌, arith, nat_eq, if◌then◌else◌,
}
use cali_go_stack.Queue.Chan.{Bytes}
use cali_go_stack.Queue.Hub.{Hub, broadcast}
use cali_go_stack.Store.Transport.{index_byte}
use cali_go_stack.Nats.Realtime.{
  on_message, byte_at, JetStream, in_memory, jet_stream, publish_todo_update, deliver,
}

-- The text begins with two zero bytes.
abbrev pub two_zeros : Bytes → Bool
two_zeros (a ∷ b ∷ rest) = nat_eq a 0 && nat_eq b 0
two_zeros _ = false

module _ (string_of : Bytes → String) (h : Hub) where
  on_message_lem :
      (payload : Bytes)
      → on_message string_of h payload
        ≡ (if two_zeros payload then none else some (broadcast h payload))
  unfolding on_message index_byte byte_at
  on_message_lem [] = refl
  on_message_lem (a ∷ []) = ground arith
  on_message_lem (a ∷ b ∷ rest) = ground arith

  -- A payload that a subscribed JetStream broadcaster with nothing pending publishes, and the
  -- server takes, is delivered whole to every client of the hub, which ends as if the in-memory
  -- broadcaster had published it: no origin is left out, whatever tag the payload carries. The
  -- exception is a payload that begins with two zero bytes: its delivery panics.
  pub relayed :
      (closed : Bool) (payload : Bytes)
      → let idle : JetStream = record { subscribed = true; closed = closed; stored = [] } in
        let (taken, (b, h')) = publish_todo_update true payload (jet_stream idle) h in
        let (_, (_, direct)) = publish_todo_update true payload in_memory h in
        (taken ≡ true)
        × (deliver string_of b h'
            ≡ (if two_zeros payload then none else some (jet_stream idle, direct)))
  unfolding publish_todo_update deliver
  relayed closed payload = (refl, ground (arith, on_message_lem payload))
