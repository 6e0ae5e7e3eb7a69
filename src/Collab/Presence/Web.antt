-- ===== src/Collab/Presence/Web.antt =====
-- internal/collab/presence_web.go: presence over the SSE hub. The roster, the callbacks and the expiry
-- are those of Collab.Presence, which the file repeats; events of the user's own go to every other
-- client of the hub, and what json.Marshal makes of an event is a parameter.
use cali_go_stack.Base.{ℕ, String, Option, none, some, List, [], ◌∷◌, insert}
use cali_go_stack.Queue.Chan.{Bytes}
use cali_go_stack.Queue.Hub.{Hub, broadcast_except}
use cali_go_stack.Collab.Presence.{
  PresenceMsg, Presence, presence_join, presence_leave, presence_cursor, own_event, new_presence,
  apply, expire_stale,
}

pub record WebPresence (F : Type 0) : Type 0 where
  pub hub : Hub
  pub session : Presence F

-- `encode` is json.Marshal of a message and `none` an error of it; `decode` is json.Unmarshal.
module _ {F : Type 0} (zero_coordinate : F) (encode : PresenceMsg F → Option Bytes)
    (decode : Bytes → Option (PresenceMsg F)) where
  unfoldable pub new_web_presence : (hub : Hub) (doc user : String) (hb ttl : ℕ) → WebPresence F
  new_web_presence hub doc user hb ttl = record {
    hub = hub;
    session = new_presence zero_coordinate doc user hb ttl;
  }

  -- A message that does not encode is dropped.
  unfoldable pub broadcast : (client : String) → PresenceMsg F → WebPresence F → WebPresence F
  broadcast client msg w = elim (encode msg) [
    | none ↦ w
    | some bytes ↦ record w { hub = broadcast_except w.hub bytes client }
  ]

  unfoldable pub publish_cursor :
      (client : String) (x y : F) (now : ℕ) → WebPresence F → WebPresence F
  publish_cursor client x y now w =
      let msg = record (own_event zero_coordinate presence_cursor now w.session) { x = x; y = y } in
      broadcast client msg (record w {
        session = record (w.session) { roster = insert msg.user msg w.session.roster };
      })

  unfoldable pub handle_incoming : Bytes → WebPresence F → WebPresence F
  handle_incoming bytes w = elim (decode bytes) [
    | none ↦ w
    | some msg ↦ record w { session = apply zero_coordinate msg w.session }
  ]

  -- What wakes the loop of Subscribe, or happens to the session in the meantime.
  pub data WebEvent : Type 0 where
    beat : (now : ℕ) → WebEvent
    expire : (now : ℕ) → WebEvent
    incoming : Bytes → WebEvent
    cursor : (x y : F) (now : ℕ) → WebEvent

  unfoldable pub on_event : (client : String) → WebEvent → WebPresence F → WebPresence F
  on_event client (beat now) w =
      broadcast client (own_event zero_coordinate presence_join now w.session) w
  on_event client (expire now) w = record w { session = expire_stale zero_coordinate now w.session }
  on_event client (incoming bytes) w = handle_incoming bytes w
  on_event client (cursor x y now) w = publish_cursor client x y now w

  run : (client : String) → List WebEvent → WebPresence F → WebPresence F
  run client [] w = w
  run client (e ∷ es) w = run client es (on_event client e w)

  -- Subscribe until the context is done.
  unfoldable pub subscribe :
      (client : String) (started finished : ℕ) → List WebEvent → WebPresence F → WebPresence F
  unfolding run
  subscribe client started finished es w =
      let join = own_event zero_coordinate presence_join started w.session in
      let after = run client es (broadcast client join w) in
      broadcast client (own_event zero_coordinate presence_leave finished after.session) after
