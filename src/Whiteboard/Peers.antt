-- ===== src/Whiteboard/Peers.antt =====
-- Who is counted on a board.
use cali_go_stack.Base.{
  ℕ, ◌≡◌, ◌≢◌, ap, ◌∙◌, String, true, not, Option, some, [], ◌==◌, arith, eq_iff, lookup, insert,
  lookup-insert, if◌then◌else◌,
}
use cali_go_stack.Queue.Hub.Frame.{fan_out-SameTables}
use cali_go_stack.Queue.Hub.Reconnect.{clients-register}
use cali_go_stack.Queue.Hub.{
  register, unregister_if_current, is_registered, broadcast, broadcast_except,
  slow_client_broadcast,
}
use cali_go_stack.Whiteboard.{
  Texts, Boards, peer_set, open_stream, close_stream, peer_leave, peer_join, broadcast_peer_count,
  peer_list,
}

abbrev pub on_board : Boards → (doc client : String) → Option (Unit {0})
on_board b doc client = lookup client (peer_set (lookup doc b.peers))

module _ (t : Texts) where
  counted-open_stream :
      (doc asked client : String) (ch : ℕ) (b : Boards)
      → on_board (open_stream t doc client ch b).1 asked client
        ≡ (if doc == asked then some tt else on_board b asked client)
  unfolding open_stream peer_join broadcast_peer_count
  counted-open_stream doc asked client ch b = ground (
    arith,
    lookup-insert doc asked (insert client tt (peer_set (lookup doc b.peers))) b.peers,
    lookup-insert client client tt (peer_set (lookup doc b.peers)),
    eq_iff doc asked,
    eq_iff client client,
  )

  registered-open_stream :
      (doc client : String) (ch : ℕ) (b : Boards)
      → lookup client (open_stream t doc client ch b).1.hub.clients ≡ some ch
  unfolding open_stream peer_join broadcast_peer_count peer_list broadcast broadcast_except
  registered-open_stream doc client ch b =
      let joined = register b.hub client "" ch in
      let told =
        fan_out-SameTables (λ id. not (id == client)) slow_client_broadcast
          (t.presence "join" doc client []) joined.clients joined in
      let fresh : lookup client joined.clients ≡ some ch =
        rw clients-register
          (ground (arith, lookup-insert client client ch b.hub.clients, eq_iff client client)) in
      let counted =
        fan_out-SameTables (λ id. true) slow_client_broadcast
          (t.presence "count" doc "" (
            peer_list doc (record b {
              peers = insert doc (insert client tt (peer_set (lookup doc b.peers))) b.peers;
            })))
          _ _ in
      ap (lookup client) (counted.clients ∙ told.clients) ∙ fresh

  -- A client opens a board on a new channel while an earlier stream of the same client, on another
  -- channel, has not ended. The later end of that stream changes nothing: the client stays
  -- registered on the new channel and counted on the board. So, if the earlier stream was of
  -- another board, the client is still counted there as it was before.
  pub late_close_changes_nothing :
      (b : Boards) (doc earlier client : String) (old new : ℕ)
      → old ≢ new
      → let b' = (open_stream t doc client new b).1 in
        (close_stream t earlier client old b' ≡ b')
        × (lookup client b'.hub.clients ≡ some new)
        × (on_board b' earlier client
            ≡ (if doc == earlier then some tt else on_board b earlier client))
  unfolding close_stream peer_leave unregister_if_current is_registered
  late_close_changes_nothing b doc earlier client old new apart =
      let held = registered-open_stream doc client new b in
      (ground (arith, held, apart), held, counted-open_stream doc earlier client new b)
