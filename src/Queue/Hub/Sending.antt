-- ===== src/Queue/Hub/Sending.antt =====
-- What `Send` does with an event on each branch.
use cali_go_stack.Base.{
  ℕ, ◌<◌, ◌≡◌, String, some, [], ◌∷◌, ◌++◌, arith, eq_iff, lookup, lookup-insert, if◌then◌else◌,
}
use cali_go_stack.Queue.Chan.{Bytes, has_room, try_send}
use cali_go_stack.Queue.Hub.{Hub, slow_client, on_drop, buffered, ring, buffer_event, send}
use cali_go_stack.Queue.Hub.Scope.{after_offer}

-- A send to a registered client, where the ring is not disabled: with room in its channel the
-- event is put at its end, and buffer and reports are as they were; without room the event is
-- reported as dropped and kept in the replay buffer, and the channel is left alone. The
-- registrations do not change.
pub send_registered :
    (h : Hub) (id : String) (event : Bytes) (ch : ℕ)
    → lookup id h.clients ≡ some ch
    → 0 < h.max_buffer
    → let room = has_room (h.channels ch) in
      ((send h id event).channels ch ≡ after_offer (h.channels ch) event)
      × (buffered (send h id event) id
          ≡ (if room then buffered h id else ring h.max_buffer (buffered h id) event))
      × ((send h id event).drops ≡ (
          if room
          then h.drops
          else h.drops ++ record { client = id; event = event; reason = slow_client } ∷ []))
      × ((send h id event).clients ≡ h.clients)
unfolding send buffer_event on_drop try_send
send_registered h id event ch found p =
    rw (found, send)
      (ground (
        arith,
        lookup-insert id id (ring h.max_buffer (buffered h id) event) h.buffer,
        eq_iff id id,
      ))
