-- ===== src/Whiteboard.antt =====
-- features/whiteboard/handler.go: the streams of the boards and who is on which board. All boards share
-- one hub, which is not that of the todos. encoding/json never fails on these values, and its texts are
-- parameters; pages, the list of boards and the loading of the session are left out.
pub mod Peers
pub mod Pages
use cali_go_stack.Base.{
  ℕ, String, Bool, true, false, Option, none, some, List, [], ◌∷◌, ◌++◌, ◌==◌, Assoc, lookup,
  insert, remove, map, if◌then◌else◌,
}
use cali_go_stack.Queue.Chan.{Bytes, Channel, update}
use cali_go_stack.Queue.Hub.{
  Hub, register, unregister_if_current, broadcast, broadcast_except, is_registered,
}

-- The text of a PresenceMsg: its type, the document, the user and the peers; and of the shapes of a
-- document, where there are any.
pub record Texts : Type 0 where
  pub presence : (kind doc user : String) (peers : List String) → Bytes
  pub shapes : (doc : String) → Option Bytes

-- The hub and `peers`: for each document the clients on it.
pub record Boards : Type 0 where
  pub hub : Hub
  pub peers : Assoc (Assoc (Unit {0}))

abbrev pub peer_set : Option (Assoc (Unit {0})) → Assoc (Unit {0})
peer_set none = []
peer_set (some set) = set

-- The keys of a set, without the client.
unfoldable pub others_in : String → Assoc (Unit {0}) → List String
others_in client [] = []
others_in client ((id, u) ∷ rest) =
    let others = others_in client rest in if id == client then others else id ∷ others

unfoldable pub peer_join : (doc client : String) → Boards → List String × Boards
peer_join doc client b =
    let set = peer_set (lookup doc b.peers) in
    (others_in client set, record b { peers = insert doc (insert client tt set) b.peers })

unfoldable pub peer_list : String → Boards → List String
peer_list doc b = map (λ (p : String × Unit {0}). p.0) (peer_set (lookup doc b.peers))

module _ (t : Texts) where
  unfoldable pub broadcast_peer_count : String → Boards → Boards
  unfolding peer_list
  broadcast_peer_count doc b = record b {
    hub = broadcast b.hub (t.presence "count" doc "" (peer_list doc b));
  }

  -- A set that has become empty leaves the map.
  abbrev pub without_peer : (doc client : String) → Option (Assoc (Unit {0})) → Boards → Boards
  without_peer doc client none b = b
  without_peer doc client (some set) b = elim (remove client set) [
    | [] ↦ record b { peers = remove doc b.peers }
    | p ∷ rest ↦ record b { peers = insert doc (p ∷ rest) b.peers }
  ]

  unfoldable pub peer_leave : (doc client : String) → Boards → Boards
  unfolding broadcast_peer_count
  peer_leave doc client b =
      if is_registered b.hub client
      then b
      else let left = without_peer doc client (lookup doc b.peers) b in
        broadcast_peer_count doc (record left {
          hub = broadcast_except left.hub (t.presence "leave" doc client []) client;
        })

  -- A snapshot of the peers, if there are others, and the shapes, if there are any.
  abbrev greeting : (doc client : String) → List String → List Bytes
  greeting doc client [] = []
  greeting doc client (o ∷ os) = t.presence "snapshot" doc client (o ∷ os) ∷ []

  abbrev first_shapes : Option Bytes → List Bytes
  first_shapes none = []
  first_shapes (some s) = s ∷ []

  -- handleStream up to its loop: what is written to the client, and the boards. `channel` is the
  -- channel that it makes.
  unfoldable pub open_stream : (doc client : String) (channel : ℕ) → Boards → List Bytes × Boards
  unfolding peer_join broadcast_peer_count
  open_stream doc client channel b =
      let registered = register b.hub client "" channel in
      let (others, joined) = peer_join doc client (record b { hub = registered }) in
      let told = record joined {
        hub = broadcast_except joined.hub (t.presence "join" doc client []) client;
      } in
      (greeting doc client others ++ first_shapes (t.shapes doc), broadcast_peer_count doc told)

  -- The deferred function of handleStream.
  unfoldable pub close_stream : (doc client : String) (channel : ℕ) → Boards → Boards
  unfolding peer_leave
  close_stream doc client channel b =
      peer_leave doc client (record b { hub = unregister_if_current b.hub client channel })

  -- handlePresence: the event goes to every other client of the hub. `tagged` is the text of the
  -- event with the document and the time, or `none` where the body is no event.
  unfoldable pub handle_presence :
      (from : String) → (tagged : Option Bytes) → Boards → Bool × Boards
  handle_presence from none b = (false, b)
  handle_presence from (some event) b = (true, record b { hub = broadcast_except b.hub event from })
