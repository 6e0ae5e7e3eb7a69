-- ===== src/Tests/Peers.antt =====
-- A session with one peer.
use cali_go_stack.Base.{ℕ, ◌≡◌, ◌≢◌, refl, String, Option, none, [], ◌∷◌, arith, eq_iff, lookup}
use cali_go_stack.Queue.Chan.{Bytes}
use cali_go_stack.Collab.Presence.{
  PresenceMsg, Presence, received, beat, expire, cursor, on_event, run,
}
use cali_go_stack.Collab.Presence.Expiry.{quiet_peer_leaves}

abbrev from_bob : PresenceMsg ℕ
from_bob = record { kind = "join"; doc = "d"; user = "bob"; x = 0; y = 0; ts = 100; peers = [] }

abbrev session : Presence ℕ
session = record {
  doc = "d";
  self = "ann";
  hb = 3000000000;
  ttl = 8000000000;
  roster = ("ann", record from_bob { user = "ann" }) ∷ ("bob", from_bob) ∷ [];
  handlers = 1 ∷ [];
  notified = [];
  sent = [];
}

abbrev nothing_decodes : Bytes → Option (PresenceMsg ℕ)
nothing_decodes bytes = none

bob_not_ann : ◌≢◌ {A = String} "bob" "ann"
bob_not_ann e = ground (arith, eq_iff "bob" "ann")

quiet_peer_leaves_example :
    lookup "bob"
      (on_event 0 nothing_decodes (expire 8101) (
        run 0 nothing_decodes
          (received (1 ∷ []) ∷ beat 3000 ∷ expire 4000 ∷ cursor 1 2 5000 ∷ [])
          session)).roster
    ≡ none
unfolding lookup
quiet_peer_leaves_example =
    (quiet_peer_leaves 0 nothing_decodes "bob" from_bob session
      (received (1 ∷ []) ∷ beat 3000 ∷ expire 4000 ∷ cursor 1 2 5000 ∷ []) 8101 (refl, (refl, tt))
      bob_not_ann refl (tt, (tt, (tt, (tt, tt)))) (omega arith)).0
