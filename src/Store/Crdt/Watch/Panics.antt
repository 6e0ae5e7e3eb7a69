-- ===== src/Store/Crdt/Watch/Panics.antt =====
-- features/store/crdtstore/crdtstore.go: no history of the watches sends on a closed channel or
-- closes one.
use cali_go_stack.Base.{
  ℕ, ◌+◌, ◌%◌, ◌^◌, ◌<◌, ◌≡◌, ◌≢◌, refl, String, Bool, true, false, Option, none, some, List, [],
  ◌∷◌, ◌++◌, arith, ◌∙◌, ap, subst, ◌>>=◌, if◌then◌else◌, insert, Bool-cases, inl, inr,
}
use cali_go_stack.Store.Crdt.Watch.{
  Event, Sub, State, Phase, starting, running, ended, greeting, carrying, Step, watches, bumps,
  goes, reads, cancels, publishes, closes, put, offered, member, version, bump_version, watch,
  proceed, take_event, read_from, go, read, unwatched, cancel, set_publisher, close, step, run,
  new_store,
}
use cali_go_stack.Store.Crdt.Watch.Fan.{
  Nodup, sent, send_all-sent, sent_at, member-append, Nodup-append, member-without, Nodup-without,
}

abbrev pub is_ended : Phase → Bool
is_ended ended = true
is_ended _ = false

-- The channel is open, and its goroutine runs.
abbrev pub IsLive : Sub → Type 0
IsLive sub = (sub.closed ≡ false) × (is_ended sub.phase ≡ false)

-- The watchers stand in the list once and are live, and every address is one that was given out.
pub record IsValid (s : State) : Type 0 where
  pub live : (q : ℕ) → member q s.watchers ≡ true → IsLive (s.subs q)
  pub known : (q : ℕ) → member q s.watchers ≡ true → q < s.next
  pub distinct : Nodup s.watchers

abbrev pub next_event : String → State → Event
next_event owner s = record { owner = owner; version = (version owner s + 1) % 2 ^ 64 }

-- A bump that does not panic.
abbrev pub bumped : String → State → State
bumped owner s = record s {
  versions = insert owner (next_event owner s).version s.versions;
  subs = sent s.watchers (next_event owner s) s.subs;
  events = elim s.publisher [
    | none ↦ s.events
    | some _ ↦ s.events ++ (owner, (next_event owner s).version) ∷ []
  ];
}

pub bump_version-bumped :
    (owner : String) (s : State) → IsValid s → bump_version owner s ≡ some (bumped owner s)
unfolding bump_version
bump_version-bumped owner s v =
    ap (λ (o : Option (ℕ → Sub)). o >>= λ heap. some (record (bumped owner s) { subs = heap }))
      (send_all-sent s.watchers (next_event owner s) s.subs (λ q held. (v.live q held).0))

-- A step that does not panic.
unfoldable pub stepped : Step → State → State
stepped (watches owner) s = watch owner s
stepped (bumps owner) s = bumped owner s
stepped (goes p) s = go p s
stepped (reads p) s = read p s
stepped (cancels p) s = if member p s.watchers then unwatched p s else s
stepped (publishes p) s = set_publisher p s
stepped closes s = close s

unfoldable pub ran : List Step → State → State
ran [] s = s
ran (x ∷ xs) s = ran xs (stepped x s)

offered-IsLive : (event : Event) (sub : Sub) → IsLive sub → IsLive (offered event sub)
offered-IsLive event sub h = ground arith

pub take_event-IsLive : (es : List Event) (sub : Sub) → IsLive sub → IsLive (take_event es sub)
take_event-IsLive [] sub h = ground arith
take_event-IsLive (e ∷ es) sub h = ground arith

pub proceed-IsLive :
    (now : ℕ) (phase : Phase) (sub : Sub)
    → IsLive sub
    → phase ≡ sub.phase
    → IsLive (proceed now phase sub)
proceed-IsLive now starting sub h e = ground arith
proceed-IsLive now (greeting w) sub h e = ground arith
proceed-IsLive now running sub h e = take_event-IsLive sub.pending sub h
proceed-IsLive now (carrying w) sub h e = ground arith
proceed-IsLive now ended sub h e = ground arith

pub read_from-IsLive : (vs : List ℕ) (sub : Sub) → IsLive sub → IsLive (read_from vs sub)
read_from-IsLive [] sub h = h
read_from-IsLive (w ∷ vs) sub h = h

-- Only the watch at `p` changes, and it stays live if it is a watcher.
put-IsValid :
    (p : ℕ) (sub : Sub) (s : State)
    → (member p s.watchers ≡ true → IsLive sub)
    → IsValid s
    → IsValid (record s { subs = put p sub s.subs })
put-IsValid p sub s keep v = record {
  live = λ q held. ground (arith, v.live q, keep);
  known = v.known;
  distinct = v.distinct;
}

watch-IsValid : (owner : String) (s : State) → IsValid s → IsValid (watch owner s)
unfolding watch
watch-IsValid owner s v = record {
  live = λ q held. ground (arith, v.live q, member-append q s.watchers s.next);
  known = λ q held. ground (arith, v.known q, member-append q s.watchers s.next);
  distinct =
      Nodup-append s.watchers s.next
        (elim (Bool-cases (member s.next s.watchers)) [
          | inl held ↦ absurd (omega (arith, v.known s.next held))
          | inr new ↦ new
        ])
        v.distinct;
}

pub unwatched-IsValid : (p : ℕ) (s : State) → IsValid s → IsValid (unwatched p s)
unwatched-IsValid p s v = record {
  live = λ q kept. ground (arith, v.live q, member-without q p s.watchers v.distinct);
  known = λ q kept. ground (arith, v.known q, member-without q p s.watchers v.distinct);
  distinct = Nodup-without p s.watchers v.distinct;
}

if_IsValid : {s t : State} (b : Bool) → IsValid s → IsValid t → IsValid (if b then s else t)
if_IsValid true u v = u
if_IsValid false u v = v

pub stepped-IsValid : (x : Step) (s : State) → IsValid s → IsValid (stepped x s)
unfolding stepped go read set_publisher close
stepped-IsValid (watches owner) s v = watch-IsValid owner s v
stepped-IsValid (bumps owner) s v = record {
  live = λ q held. ground (
    arith,
    v.live q,
    sent_at s.watchers (next_event owner s) s.subs q v.distinct,
    offered-IsLive (next_event owner s) (s.subs q),
  );
  known = v.known;
  distinct = v.distinct;
}
stepped-IsValid (goes p) s v =
    put-IsValid p (proceed (version (s.subs p).owner s) (s.subs p).phase (s.subs p)) s
      (λ held. proceed-IsLive _ (s.subs p).phase (s.subs p) (v.live p held) refl) v
stepped-IsValid (reads p) s v =
    put-IsValid p (read_from (s.subs p).out (s.subs p)) s
      (λ held. read_from-IsLive (s.subs p).out (s.subs p) (v.live p held)) v
stepped-IsValid (cancels p) s v = if_IsValid (member p s.watchers) (unwatched-IsValid p s v) v
stepped-IsValid (publishes p) s v = ground (arith, v)
stepped-IsValid closes s v = record { live = λ q held. cc; known = λ q held. cc; distinct = tt }

cancel_lem :
    (p : ℕ) (s : State)
    → IsValid s
    → cancel p s ≡ some (if member p s.watchers then unwatched p s else s)
unfolding cancel
cancel_lem p s v = ground (arith, v.live p)

step-stepped : (x : Step) (s : State) → IsValid s → step x s ≡ some (stepped x s)
unfolding step stepped
step-stepped (bumps owner) s v = bump_version-bumped owner s v
step-stepped (watches owner) s v = refl
step-stepped (goes p) s v = refl
step-stepped (reads p) s v = refl
step-stepped (cancels p) s v = cancel_lem p s v
step-stepped (publishes p) s v = refl
step-stepped closes s v = refl

pub run-ran : (xs : List Step) (s : State) → IsValid s → run xs s ≡ some (ran xs s)
unfolding run ran
run-ran [] s v = refl
run-ran (x ∷ xs) s v =
    ap (λ (o : Option State). o >>= run xs) (step-stepped x s v)
    ∙ run-ran xs (stepped x s) (stepped-IsValid x s v)

pub ran-IsValid : (xs : List Step) (s : State) → IsValid s → IsValid (ran xs s)
unfolding ran
ran-IsValid [] s v = v
ran-IsValid (x ∷ xs) s v = ran-IsValid xs (stepped x s) (stepped-IsValid x s v)

pub new_store-IsValid : IsValid new_store
new_store-IsValid = record { live = λ q held. cc; known = λ q held. cc; distinct = tt }

pub run-IsValid : (xs : List Step) (s : State) → run xs new_store ≡ some s → IsValid s
run-IsValid xs s h =
    subst IsValid (cc (run-ran xs new_store new_store-IsValid))
      (ran-IsValid xs new_store new_store-IsValid)

-- No history of a new store, of watches, bumps, cancels in any order and number, Close, and steps of
-- the goroutines and readers, sends on a closed channel or
-- closes one.
pub never_panics : (xs : List Step) → run xs new_store ≢ none
never_panics xs h = cc (run-ran xs new_store new_store-IsValid)
