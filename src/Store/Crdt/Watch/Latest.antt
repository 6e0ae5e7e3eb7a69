-- ===== src/Store/Crdt/Watch/Latest.antt =====
-- features/store/crdtstore/crdtstore.go: the version that a watch's reader is left with.
use cali_go_stack.Base.{
  ℕ, ◌≡◌, refl, String, true, false, some, List, [], ◌∷◌, ◌++◌, arith, sym, subst, eq_iff, nat_eq,
  lookup-insert, Bool-cases, inl, inr, ◌⊎◌,
}
use cali_go_stack.Store.Crdt.Watch.{
  Event, Sub, State, Phase, starting, running, ended, greeting, carrying, Step, watches, bumps,
  goes, reads, cancels, publishes, closes, put, member, version, watch, proceed, take_event,
  read_from, go, read, unwatched, set_publisher, run, new_store,
}
use cali_go_stack.Store.Crdt.Watch.Fan.{sent_at, member-append, member-without}
use cali_go_stack.Store.Crdt.Watch.Panics.{
  IsValid, unwatched-IsValid, next_event, stepped, ran, stepped-IsValid, run-ran, run-IsValid,
}
use cali_go_stack.Store.Crdt.Watch.Current.{
  attentive, keeps, can_send, last?, IsCurrent, proceed-IsCurrent, read_from-IsCurrent,
  offered-IsCurrent, offered_foreign, settled,
}

-- The watch at `p` stands among the watchers, is one of `owner`, and has the current version.
record Follows (p : ℕ) (owner : String) (s : State) : Type 0 where
  valid : IsValid s
  watching : member p s.watchers ≡ true
  owns : (s.subs p).owner ≡ owner
  current : IsCurrent (version owner s) (s.subs p)

take_event-owner : (es : List Event) (sub : Sub) → (take_event es sub).owner ≡ sub.owner
take_event-owner [] sub = ground arith
take_event-owner (e ∷ es) sub = refl

proceed-owner : (now : ℕ) (phase : Phase) (sub : Sub) → (proceed now phase sub).owner ≡ sub.owner
proceed-owner now starting sub = refl
proceed-owner now (greeting v) sub = ground arith
proceed-owner now running sub = take_event-owner sub.pending sub
proceed-owner now (carrying v) sub = refl
proceed-owner now ended sub = refl

read_from-owner : (vs : List ℕ) (sub : Sub) → (read_from vs sub).owner ≡ sub.owner
read_from-owner [] sub = refl
read_from-owner (v ∷ vs) sub = refl

module _ (p : ℕ) (owner : String) (s : State) (f : Follows p owner s) where
  open f use {valid, watching, owns, current}

  -- Another goroutine or reader moves.
  put_other :
      (q : ℕ) (sub : Sub)
      → nat_eq q p ≡ false
      → IsValid (record s { subs = put q sub s.subs })
      → Follows p owner (record s { subs = put q sub s.subs })
  put_other q sub other v = record {
    valid = v;
    watching = watching;
    owns = rw other owns;
    current = rw other current;
  }

  go_self :
      can_send (s.subs p).phase (s.subs p) ≡ true
      → IsValid (stepped (goes p) s)
      → Follows p owner (stepped (goes p) s)
  unfolding stepped go
  go_self room v = record {
    valid = v;
    watching = watching;
    owns = ground (arith, proceed-owner (version (s.subs p).owner s) (s.subs p).phase (s.subs p));
    current = ground (
      arith,
      proceed-IsCurrent (version owner s) (s.subs p).phase (s.subs p) refl (valid.live p watching).0
          room current,
      owns,
    );
  }

  read_self : IsValid (stepped (reads p) s) → Follows p owner (stepped (reads p) s)
  unfolding stepped read
  read_self v = record {
    valid = v;
    watching = watching;
    owns = ground (arith, read_from-owner (s.subs p).out (s.subs p));
    current =
        ground
          (arith, read_from-IsCurrent (version owner s) (s.subs p).out (s.subs p) refl current);
  }

  bump_kept :
      (bumping : String)
      → keeps p (bumps bumping) s ≡ true
      → IsValid (stepped (bumps bumping) s)
      → Follows p owner (stepped (bumps bumping) s)
  unfolding stepped
  bump_kept bumping kept v = record {
    valid = v;
    watching = watching;
    owns =
        ground (arith, sent_at s.watchers (next_event bumping s) s.subs p valid.distinct, watching);
    current = ground (
      arith,
      sent_at s.watchers (next_event bumping s) s.subs p valid.distinct,
      watching,
      owns,
      eq_iff bumping owner,
      lookup-insert bumping owner (next_event bumping s).version s.versions,
      offered-IsCurrent (next_event bumping s) (s.subs p),
      offered_foreign (version owner s) (next_event bumping s) (s.subs p),
    );
  }

  cancel_other :
      (q : ℕ) → nat_eq q p ≡ false → IsValid (unwatched q s) → Follows p owner (unwatched q s)
  cancel_other q other v = record {
    valid = v;
    watching = ground (arith, member-without p q s.watchers valid.distinct, watching);
    owns = rw other owns;
    current = rw other current;
  }

  watch_other : (name : String) → IsValid (watch name s) → Follows p owner (watch name s)
  unfolding watch
  watch_other name v = record {
    valid = v;
    watching = ground (arith, member-append p s.watchers s.next, watching);
    owns = ground (arith, valid.known p watching, owns);
    current = ground (arith, valid.known p watching, current);
  }

-- A step of the watch at `q`, by whether it is the one at `p`.
same_watch : (q p : ℕ) → (q ≡ p) ⊎ (nat_eq q p ≡ false)
same_watch q p = elim (Bool-cases (nat_eq q p)) [
  | inl same ↦ inl (ground arith)
  | inr other ↦ inr other
]

stepped-Follows :
    (x : Step) (p : ℕ) (owner : String) (s : State)
    → Follows p owner s
    → keeps p x s ≡ true
    → Follows p owner (stepped x s)
unfolding stepped go read set_publisher
stepped-Follows (watches name) p owner s f kept =
    watch_other p owner s f name (stepped-IsValid (watches name) s f.valid)
stepped-Follows (bumps name) p owner s f kept =
    bump_kept p owner s f name kept (stepped-IsValid (bumps name) s f.valid)
stepped-Follows (goes q) p owner s f kept = elim (same_watch q p) [
  | inl same ↦
      subst (λ (r : ℕ). Follows p owner (stepped (goes r) s)) (sym same)
        (go_self p owner s f (ground arith) (stepped-IsValid (goes p) s f.valid))
  | inr other ↦ put_other p owner s f q _ other (stepped-IsValid (goes q) s f.valid)
]
stepped-Follows (reads q) p owner s f kept = elim (same_watch q p) [
  | inl same ↦
      subst (λ (r : ℕ). Follows p owner (stepped (reads r) s)) (sym same)
        (read_self p owner s f (stepped-IsValid (reads p) s f.valid))
  | inr other ↦ put_other p owner s f q _ other (stepped-IsValid (reads q) s f.valid)
]
stepped-Follows (cancels q) p owner s f kept = elim (Bool-cases (member q s.watchers)) [
  | inl held ↦
      rw (held, stepped) (cancel_other p owner s f q (ground arith) (unwatched-IsValid q s f.valid))
  | inr gone ↦ rw (gone, stepped) f
]
stepped-Follows (publishes pub_) p owner s f kept = record {
  valid = stepped-IsValid (publishes pub_) s f.valid;
  watching = f.watching;
  owns = f.owns;
  current = f.current;
}
stepped-Follows closes p owner s f kept = absurd (ground arith)

ran-Follows :
    (xs : List Step) (p : ℕ) (owner : String) (s : State)
    → Follows p owner s
    → attentive p xs s ≡ true
    → Follows p owner (ran xs s)
unfolding ran attentive
ran-Follows [] p owner s f h = f
ran-Follows (x ∷ xs) p owner s f h =
    ran-Follows xs p owner (stepped x s) (stepped-Follows x p owner s f (ground arith))
      (ground arith)

watch-Follows : (owner : String) (s : State) → IsValid s → Follows s.next owner (watch owner s)
unfolding watch stepped
watch-Follows owner s v = record {
  valid = stepped-IsValid (watches owner) s v;
  watching = ground (arith, member-append s.next s.watchers s.next);
  owns = ground arith;
  current = inr (ground arith, ground arith);
}

-- A Watch of an owner, in a store with any history, and steps after it that lose nothing to it: no
-- version of its owner meets a full channel, it is not cancelled, and the store is not closed. Where
-- its goroutine is then between two events and has none to take, the last version that the reader
-- has taken or will take from the channel is the owner's current one.
pub latest_lands :
    (before after : List Step) (owner : String) (s end : State)
    → run before new_store ≡ some s
    → attentive s.next after (watch owner s) ≡ true
    → run (watches owner ∷ after) s ≡ some end
    → (end.subs s.next).phase ≡ running
    → (end.subs s.next).pending ≡ []
    → last? ((end.subs s.next).seen ++ (end.subs s.next).out) ≡ some (version owner end)
unfolding ran stepped
latest_lands before after owner s end first kept then_ran between empty =
    let v = run-IsValid before s first in
    let reached : ran after (watch owner s) ≡ end = cc (run-ran (watches owner ∷ after) s v) in
    let f : Follows s.next owner end =
      subst (Follows s.next owner) reached
        (ran-Follows after s.next owner (watch owner s) (watch-Follows owner s v) kept) in
    settled (version owner end) (end.subs s.next) between empty f.current
