-- ===== src/Collab/Presence.antt =====
-- internal/collab/presence.go and presence_web.go: who is present on a document. Coordinates are of a
-- type that nothing looks into, with a zero. Times are milliseconds since 1970 and no negative
-- numbers, durations nanoseconds; a duration that is not positive is zero. The lock makes each
-- operation one step. A roster is a Go map: the order of its entries has no meaning.
pub mod Sweep
pub mod Expiry
pub mod Web
use cali_go_stack.Base.{
  ℕ, ◌+◌, ◌/◌, ◌*◌, String, Bool, true, false, not, ◌&&◌, ◌||◌, Option, none, some, List, [], ◌∷◌,
  ◌++◌, ◌==◌, map, Assoc, lookup, insert, remove, ltb, nat_eq, if◌then◌else◌,
}
use cali_go_stack.Queue.Chan.{Bytes}
use cali_go_stack.Queue.Hub.{Hub, broadcast_except}

pub record PresenceMsg (F : Type 0) : Type 0 where
  pub kind : String
  pub doc : String
  pub user : String
  pub x : F
  pub y : F
  pub ts : ℕ
  pub peers : List String

abbrev pub presence_join : String
presence_join = "join"

abbrev pub presence_leave : String
presence_leave = "leave"

abbrev pub presence_cursor : String
presence_cursor = "cursor"

-- A callback is a number; `notified` has every call of a callback, and `sent` what was published on
-- the document's subject, in their order.
pub record Presence (F : Type 0) : Type 0 where
  pub doc : String
  pub self : String
  pub hb : ℕ
  pub ttl : ℕ
  pub roster : Assoc (PresenceMsg F)
  pub handlers : List ℕ
  pub notified : List (ℕ × PresenceMsg F)
  pub sent : List (PresenceMsg F)

abbrev pub milliseconds : ℕ → ℕ
milliseconds d = d / 1000000

abbrev pub second : ℕ
second = 1000000000

module _ {F : Type 0} (zero_coordinate : F) where
  -- An event of the user's own without a position.
  abbrev pub own_event : String → ℕ → Presence F → PresenceMsg F
  own_event kind now p = record {
    kind = kind;
    doc = p.doc;
    user = p.self;
    x = zero_coordinate;
    y = zero_coordinate;
    ts = now;
    peers = [];
  }

  unfoldable pub new_presence : (doc user : String) (hb ttl : ℕ) → Presence F
  new_presence doc user hb ttl = record {
    doc = doc;
    self = user;
    hb = if nat_eq hb 0 then 3 * second else hb;
    ttl = if nat_eq ttl 0 then 8 * second else ttl;
    roster = [];
    handlers = [];
    notified = [];
    sent = [];
  }

  unfoldable pub on_change : ℕ → Presence F → Presence F
  on_change fn p = record p { handlers = p.handlers ++ fn ∷ [] }

  abbrev pub publish : PresenceMsg F → Presence F → Presence F
  publish msg p = record p { sent = p.sent ++ msg ∷ [] }

  unfoldable pub publish_cursor : (x y : F) (now : ℕ) → Presence F → Presence F
  publish_cursor x y now p =
      let msg = record (own_event presence_cursor now p) { x = x; y = y } in
      publish msg (record p { roster = insert msg.user msg p.roster })

  -- Every callback is called with the event.
  abbrev pub calls : List ℕ → PresenceMsg F → List (ℕ × PresenceMsg F)
  calls handlers msg = map (λ fn. (fn, msg)) handlers

  abbrev pub merged : PresenceMsg F → Assoc (PresenceMsg F) → Assoc (PresenceMsg F)
  merged msg roster =
      if msg.kind == presence_leave
      then remove msg.user roster
      else if msg.kind == presence_cursor || msg.kind == presence_join
      then insert msg.user msg roster
      else roster

  unfoldable pub apply : PresenceMsg F → Presence F → Presence F
  apply msg p = record p {
    roster = merged msg p.roster;
    notified = p.notified ++ calls p.handlers msg;
  }

  -- now-m.TS > p.ttl.Milliseconds(), of a peer.
  unfoldable pub stale : Presence F → ℕ → String → PresenceMsg F → Bool
  stale p now u m = not (u == p.self) && ltb (m.ts + milliseconds p.ttl) now

  -- The leave that the callbacks are told of.
  unfoldable pub left : Presence F → ℕ → String → PresenceMsg F
  left p now u = record (own_event presence_leave now p) { user = u }

  -- The loop over the roster: what stays, and who has expired.
  unfoldable pub sweep :
      Presence F → ℕ → Assoc (PresenceMsg F) → Assoc (PresenceMsg F) × List (PresenceMsg F)
  sweep p now [] = ([], [])
  sweep p now ((u, m) ∷ rest) =
      let (kept, expired) = sweep p now rest in
      if stale p now u m then (kept, left p now u ∷ expired) else ((u, m) ∷ kept, expired)

  abbrev pub all_calls : List ℕ → List (PresenceMsg F) → List (ℕ × PresenceMsg F)
  all_calls handlers [] = []
  all_calls handlers (m ∷ ms) = calls handlers m ++ all_calls handlers ms

  unfoldable pub expire_stale : ℕ → Presence F → Presence F
  expire_stale now p =
      let (kept, expired) = sweep p now p.roster in
      record p { roster = kept; notified = p.notified ++ all_calls p.handlers expired }

  -- Roster: the peers, without the user.
  unfoldable pub peers_of : String → Assoc (PresenceMsg F) → List (PresenceMsg F)
  peers_of self [] = []
  peers_of self ((u, m) ∷ rest) =
      let others = peers_of self rest in if u == self then others else m ∷ others

  -- What happens while Subscribe blocks: a message of the subject, a tick of the heartbeat or of the
  -- expiry, or a cursor of the user's own.
  pub data Event : Type 0 where
    received : Bytes → Event
    beat : (now : ℕ) → Event
    expire : (now : ℕ) → Event
    cursor : (x y : F) (now : ℕ) → Event

  -- `decode` is json.Unmarshal with the message's own UnmarshalJSON.
  unfoldable pub on_event :
      (decode : Bytes → Option (PresenceMsg F)) → Event → Presence F → Presence F
  on_event decode (received message) p = elim (decode message) [ none ↦ p | some msg ↦ apply msg p ]
  on_event decode (beat now) p = publish (own_event presence_join now p) p
  on_event decode (expire now) p = expire_stale now p
  on_event decode (cursor x y now) p = publish_cursor x y now p

  unfoldable pub run :
      (decode : Bytes → Option (PresenceMsg F)) → List Event → Presence F → Presence F
  run decode [] p = p
  run decode (e ∷ es) p = run decode es (on_event decode e p)

  -- Subscribe until the context is done: the join of the session's start, the events, the leave.
  unfoldable pub subscribe :
      (decode : Bytes → Option (PresenceMsg F)) (started finished : ℕ)
      → List Event
      → Presence F
      → Presence F
  subscribe decode started finished es p =
      let q = run decode es (publish (own_event presence_join started p) p) in
      publish (own_event presence_leave finished q) q
