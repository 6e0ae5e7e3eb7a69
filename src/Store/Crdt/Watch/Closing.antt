-- ===== src/Store/Crdt/Watch/Closing.antt =====
-- features/store/crdtstore/crdtstore.go: how a watch ends, by its cancel, and how Close leaves it.
use cali_go_stack.Base.{
  ℕ, zero, suc, ◌+◌, ◌*◌, ◌<◌, ◌≤◌, ◌≡◌, refl, sym, subst, Bool, true, false, some, List, [], ◌∷◌,
  arith, ap, nat_eq, length, Bool-cases, inl, inr,
}
use cali_go_stack.Store.Crdt.Watch.{
  Event, Sub, State, Phase, starting, running, ended, greeting, carrying, Step, watches, bumps,
  goes, reads, cancels, publishes, closes, put, member, version, watch, proceed, take_event, go,
  read, set_publisher, close, run, new_store,
}
use cali_go_stack.Store.Crdt.Watch.Fan.{sent_at, member-append, member-without}
use cali_go_stack.Store.Crdt.Watch.Panics.{
  IsLive, IsValid, is_ended, next_event, stepped, ran, stepped-IsValid, run-ran, run-IsValid,
  unwatched-IsValid, proceed-IsLive, read_from-IsLive,
}

-- The watch at `p` is in no list, and waits at an open channel.
record IsStranded (p : ℕ) (s : State) : Type 0 where
  valid : IsValid s
  given : p < s.next
  gone : member p s.watchers ≡ false
  waits : IsLive (s.subs p)

module _ (p : ℕ) (s : State) (h : IsStranded p s) where
  open h use {valid, given, gone, waits}

  put-IsStranded :
      (q : ℕ) (sub : Sub)
      → (nat_eq q p ≡ true → IsLive sub)
      → IsValid (record s { subs = put q sub s.subs })
      → IsStranded p (record s { subs = put q sub s.subs })
  put-IsStranded q sub keep v = record {
    valid = v;
    given = given;
    gone = gone;
    waits = ground (arith, keep);
  }

other : (q p : ℕ) (ps : List ℕ) → member q ps ≡ true → member p ps ≡ false → nat_eq q p ≡ false
other q p ps held gone = elim (Bool-cases (nat_eq q p)) [
  | inl same ↦ let e : q ≡ p = ground arith in cc (ap (λ (r : ℕ). member r ps) e)
  | inr differs ↦ differs
]

stepped-IsStranded : (x : Step) (p : ℕ) (s : State) → IsStranded p s → IsStranded p (stepped x s)
unfolding stepped watch go read set_publisher close
stepped-IsStranded (watches name) p s h = record {
  valid = stepped-IsValid (watches name) s h.valid;
  given = ground (arith, h.given);
  gone = ground (arith, member-append p s.watchers s.next, h.gone, h.given);
  waits = ground (arith, h.waits, h.given);
}
stepped-IsStranded (bumps name) p s h = record {
  valid = stepped-IsValid (bumps name) s h.valid;
  given = h.given;
  gone = h.gone;
  waits =
      ground
        (arith, sent_at s.watchers (next_event name s) s.subs p h.valid.distinct, h.gone, h.waits);
}
stepped-IsStranded (goes q) p s h =
    put-IsStranded p s h q _
      (λ same. proceed-IsLive _ (s.subs q).phase (s.subs q) (ground (arith, h.waits)) refl)
      (stepped-IsValid (goes q) s h.valid)
stepped-IsStranded (reads q) p s h =
    put-IsStranded p s h q _
      (λ same. read_from-IsLive (s.subs q).out (s.subs q) (ground (arith, h.waits)))
      (stepped-IsValid (reads q) s h.valid)
stepped-IsStranded (cancels q) p s h = elim (Bool-cases (member q s.watchers)) [
  | inl held ↦
      rw (held, stepped)
        (record {
          valid = unwatched-IsValid q s h.valid;
          given = h.given;
          gone = ground (arith, member-without p q s.watchers h.valid.distinct, h.gone);
          waits = rw (other q p s.watchers held h.gone) h.waits;
        })
  | inr missing ↦ rw (missing, stepped) h
]
stepped-IsStranded (publishes to) p s h = record {
  valid = stepped-IsValid (publishes to) s h.valid;
  given = h.given;
  gone = h.gone;
  waits = h.waits;
}
stepped-IsStranded closes p s h = record {
  valid = stepped-IsValid closes s h.valid;
  given = h.given;
  gone = refl;
  waits = h.waits;
}

ran-IsStranded : (xs : List Step) (p : ℕ) (s : State) → IsStranded p s → IsStranded p (ran xs s)
unfolding ran
ran-IsStranded [] p s h = h
ran-IsStranded (x ∷ xs) p s h = ran-IsStranded xs p (stepped x s) (stepped-IsStranded x p s h)

-- In a store with any history, Close while a watch stands: whatever comes after it, the watch's
-- cancel included, the watch's own channel stays open, and its goroutine never ends, so that the
-- channel its reader has is never closed.
pub close_strands :
    (before after : List Step) (p : ℕ) (s end : State)
    → run before new_store ≡ some s
    → member p s.watchers ≡ true
    → run (closes ∷ after) s ≡ some end
    → ((end.subs p).closed ≡ false) × (is_ended (end.subs p).phase ≡ false)
unfolding ran stepped close
close_strands before after p s end first held then_ran =
    let v = run-IsValid before s first in
    let reached : ran after (close s) ≡ end = cc (run-ran (closes ∷ after) s v) in
    let h : IsStranded p (close s) = record {
      valid = stepped-IsValid closes s v;
      given = v.known p held;
      gone = refl;
      waits = v.live p held;
    } in
    (subst (IsStranded p) reached (ran-IsStranded after p (close s) h)).waits

-- The goroutine's steps, and no others.
abbrev pub moves : ℕ → ℕ → List Step
moves zero p = []
moves (suc n) p = goes p ∷ moves n p

-- The steps that are left to a goroutine that has sent its first version.
abbrev work : Phase → ℕ → ℕ
work running n = 1 + n * 2
work (carrying v) n = 2 + n * 2
work _ n = 0

abbrev is_greeted : Phase → Bool
is_greeted starting = false
is_greeted (greeting v) = false
is_greeted _ = true

-- The goroutine of a closed channel with at most `n` steps left.
abbrev Ends : ℕ → Sub → Type 0
Ends n sub =
    (sub.closed ≡ true) × (is_greeted sub.phase ≡ true) × (work sub.phase (length sub.pending) ≤ n)

take_event-Ends :
    (n : ℕ) (es : List Event) (sub : Sub)
    → es ≡ sub.pending
    → sub.phase ≡ running
    → Ends (suc n) sub
    → Ends n (take_event es sub)
take_event-Ends n [] sub e at h = ground arith
take_event-Ends n (f ∷ es) sub e at h = ground (arith, ap (λ (l : List Event). length l) e)

proceed-Ends :
    (n now : ℕ) (phase : Phase) (sub : Sub)
    → phase ≡ sub.phase
    → Ends (suc n) sub
    → Ends n (proceed now phase sub)
proceed-Ends n now starting sub e h = ground arith
proceed-Ends n now (greeting v) sub e h = ground arith
proceed-Ends n now running sub e h = take_event-Ends n sub.pending sub refl (sym e) h
proceed-Ends n now (carrying v) sub e h = ground arith
proceed-Ends n now ended sub e h = ground arith

moves-Ends : (n p : ℕ) (s : State) → Ends n (s.subs p) → Ends 0 ((ran (moves n p) s).subs p)
unfolding ran stepped go
moves-Ends zero p s h = h
moves-Ends (suc n) p s h =
    moves-Ends n p (go p s) (
      ground
        (arith, proceed-Ends n (version (s.subs p).owner s) (s.subs p).phase (s.subs p) refl h))

Ends-ended : (sub : Sub) → Ends 0 sub → is_ended sub.phase ≡ true
Ends-ended sub h = ground arith

-- In a store with any history, the cancel of a watch whose goroutine is between two events: once the
-- goroutine has made more than two steps for each event that waits for it, it has ended, and has
-- closed the channel of its reader.
pub cancel_ends :
    (before : List Step) (p n : ℕ) (s end : State)
    → run before new_store ≡ some s
    → member p s.watchers ≡ true
    → (s.subs p).phase ≡ running
    → length (s.subs p).pending * 2 < n
    → run (cancels p ∷ moves n p) s ≡ some end
    → is_ended (end.subs p).phase ≡ true
unfolding ran stepped
cancel_ends before p n s end first held between enough then_ran =
    let v = run-IsValid before s first in
    let reached : ran (moves n p) (stepped (cancels p) s) ≡ end =
      cc (run-ran (cancels p ∷ moves n p) s v) in
    rw (← reached) (
      Ends-ended ((ran (moves n p) (stepped (cancels p) s)).subs p)
        (moves-Ends n p (stepped (cancels p) s) (ground arith)))
