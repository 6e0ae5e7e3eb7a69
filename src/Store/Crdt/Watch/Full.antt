-- ===== src/Store/Crdt/Watch/Full.antt =====
-- features/store/crdtstore/crdtstore.go: a reader that does not read, whose channel is full.
use cali_go_stack.Base.{
  ℕ, zero, suc, ◌+◌, ◌%◌, ◌^◌, ◌<◌, ◌≡◌, refl, String, true, false, some, List, [], ◌∷◌, arith,
  eq_iff, lookup-insert,
}
use cali_go_stack.Store.Crdt.Watch.{
  State, running, Step, bumps, goes, member, version, has_room, go, run, new_store,
}
use cali_go_stack.Store.Crdt.Watch.Fan.{sent_at}
use cali_go_stack.Store.Crdt.Watch.Panics.{
  IsValid, next_event, bumped, stepped, ran, stepped-IsValid, run-ran, run-IsValid,
}

-- Bumps of the owner, each taken up and forwarded by the goroutine before the next.
abbrev pub bumps_taken : ℕ → String → ℕ → List Step
bumps_taken zero owner p = []
bumps_taken (suc n) owner p = bumps owner ∷ goes p ∷ goes p ∷ bumps_taken n owner p

-- The watch at `p` is idle, and its reader's channel is full of `out`.
record IsFull (p : ℕ) (owner : String) (out : List ℕ) (s : State) : Type 0 where
  valid : IsValid s
  watching : member p s.watchers ≡ true
  owns : (s.subs p).owner ≡ owner
  idle : (s.subs p).phase ≡ running
  empty : (s.subs p).pending ≡ []
  full : has_room (s.subs p) ≡ false
  holds : (s.subs p).out ≡ out

bump_sub :
    (p : ℕ) (owner : String) (out : List ℕ) (s : State)
    → IsFull p owner out s
    → (bumped owner s).subs p ≡ record (s.subs p) { pending = next_event owner s ∷ [] }
bump_sub p owner out s f =
    ground (
      arith,
      sent_at s.watchers (next_event owner s) s.subs p f.valid.distinct,
      f.watching,
      f.empty,
    )

-- One bump with the goroutine's two steps for it: the event is taken, and dropped.
round : ℕ → String → State → State
round p owner s = go p (go p (bumped owner s))

round-IsFull :
    (p : ℕ) (owner : String) (out : List ℕ) (s : State)
    → IsFull p owner out s
    → IsFull p owner out (round p owner s)
unfolding round stepped go
round-IsFull p owner out s f = record {
  valid =
      stepped-IsValid (goes p) (go p (bumped owner s))
        (stepped-IsValid (goes p) (bumped owner s) (stepped-IsValid (bumps owner) s f.valid));
  watching = f.watching;
  owns = ground (arith, bump_sub p owner out s f, f.owns, f.idle, eq_iff owner owner);
  idle = ground (arith, bump_sub p owner out s f, f.owns, f.idle, eq_iff owner owner);
  empty = ground (arith, bump_sub p owner out s f, f.owns, f.idle, eq_iff owner owner);
  full = ground (arith, bump_sub p owner out s f, f.owns, f.idle, f.full, eq_iff owner owner);
  holds =
      ground (arith, bump_sub p owner out s f, f.owns, f.idle, f.full, f.holds, eq_iff owner owner);
}

round-version :
    (p : ℕ) (owner : String) (s : State)
    → version owner (round p owner s) ≡ (version owner s + 1) % 2 ^ 64
unfolding round go
round-version p owner s =
    ground
      (arith, lookup-insert owner owner (next_event owner s).version s.versions, eq_iff owner owner)

ran-IsFull :
    (n p : ℕ) (owner : String) (out : List ℕ) (s : State)
    → IsFull p owner out s
    → version owner s + n < 2 ^ 64
    → IsFull p owner out (ran (bumps_taken n owner p) s)
      × (version owner (ran (bumps_taken n owner p) s) ≡ version owner s + n)
unfolding ran stepped round
ran-IsFull zero p owner out s f below = (f, omega arith)
ran-IsFull (suc n) p owner out s f below =
    let now : version owner (round p owner s) ≡ version owner s + 1 =
      omega (arith, round-version p owner s) in
    let rest =
      ran-IsFull n p owner out (round p owner s) (round-IsFull p owner out s f)
        (omega (arith, now)) in
    (rest.0, omega (arith, rest.1, now))

-- In a store with any history, a watch whose goroutine is idle and whose reader's channel is full:
-- after `n` more bumps of its owner, each taken up by the goroutine, the version has grown by `n`,
-- nothing waits in the watch, and the reader's channel holds what it held before, so that the newest
-- versions never reach the reader.
pub full_drops_newest :
    (before : List Step) (n p : ℕ) (owner : String) (s end : State)
    → run before new_store ≡ some s
    → member p s.watchers ≡ true
    → (s.subs p).owner ≡ owner
    → (s.subs p).phase ≡ running
    → (s.subs p).pending ≡ []
    → has_room (s.subs p) ≡ false
    → version owner s + n < 2 ^ 64
    → run (bumps_taken n owner p) s ≡ some end
    → (version owner end ≡ version owner s + n)
      × ((end.subs p).pending ≡ [])
      × ((end.subs p).phase ≡ running)
      × ((end.subs p).out ≡ (s.subs p).out)
full_drops_newest before n p owner s end first held owns idle empty full below then_ran =
    let v = run-IsValid before s first in
    let reached : ran (bumps_taken n owner p) s ≡ end = cc (run-ran (bumps_taken n owner p) s v) in
    let f : IsFull p owner (s.subs p).out s = record {
      valid = v;
      watching = held;
      owns = owns;
      idle = idle;
      empty = empty;
      full = full;
      holds = refl;
    } in
    let rest = ran-IsFull n p owner (s.subs p).out s f below in
    rw (← reached) (rest.1, rest.0.empty, rest.0.idle, rest.0.holds)
