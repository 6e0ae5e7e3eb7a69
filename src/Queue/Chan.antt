-- ===== src/Queue/Chan.antt =====
-- Go's buffered channels of byte slices. A channel value is a pointer, so it is a number into a
-- heap of channels: two clients that hold the same number hold the same channel.
use cali_go_stack.Base.{
  ℕ, Bool, Option, none, some, List, [], ◌∷◌, ◌++◌, length, drop, ltb, nat_eq, if◌then◌else◌,
}

-- The bytes of one event.
abbrev pub Bytes : Type 0
Bytes = List ℕ

pub record Channel : Type 0 where
  pub capacity : ℕ
  pub pending : List Bytes

abbrev pub Channels : Type 0
Channels = ℕ → Channel

-- There is room for one more event.
abbrev pub has_room : Channel → Bool
has_room c = ltb (length c.pending) c.capacity

abbrev pub push : Channel → Bytes → Channel
push c event = record c { pending = c.pending ++ event ∷ [] }

abbrev pub update : Channels → ℕ → Channel → Channels
update chans p c q = if nat_eq p q then c else chans q

-- `select { case ch <- event: … default: … }`: `none` is the default branch.
unfoldable pub try_send : Channels → ℕ → Bytes → Option Channels
try_send chans p event =
    if has_room (chans p) then some (update chans p (push (chans p) event)) else none

-- `<-ch` by the channel's owner: the oldest event leaves.
unfoldable pub receive : Channels → ℕ → Channels
receive chans p = update chans p (record (chans p) { pending = drop 1 (chans p).pending })
