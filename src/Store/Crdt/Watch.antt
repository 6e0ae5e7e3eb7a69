-- ===== src/Store/Crdt/Watch.antt =====
-- features/store/crdtstore/crdtstore.go: the versions of the documents and who is told of them, that
-- is SetPublisher, PublisherName, bumpVersion, Version, Watch with its goroutine and cancel, and Close.
-- A watch is known by the address of its `internal` channel, at which the heap keeps the two channels
-- and the goroutine. `seen` is what the reader of the returned channel took from it, oldest first.
pub mod Fan
pub mod Panics
pub mod Current
pub mod Latest
pub mod Full
pub mod Closing
use cali_go_stack.Base.{
  ℕ, zero, suc, ◌+◌, ◌%◌, ◌^◌, String, Bool, true, false, Option, none, some, List, [], ◌∷◌, ◌++◌,
  ◌==◌, Assoc, lookup, insert, length, ltb, nat_eq, ◌||◌, ◌>>=◌, if◌then◌else◌,
}
use cali_go_stack.Store.Items.{or_else}

-- versionEvent
pub record Event : Type 0 where
  pub owner : String
  pub version : ℕ

-- Where a watch's goroutine is: before the first Version, before the send of its answer, before a
-- receive from `internal`, before the send of an event's version, and after `out` is closed.
pub data Phase : Type 0 where
  starting running ended : Phase
  greeting carrying : ℕ → Phase

pub record Sub : Type 0 where
  pub owner : String
  pub pending : List Event
  pub closed : Bool
  pub phase : Phase
  pub out : List ℕ
  pub seen : List ℕ

-- A DocPublisher: what its Name answers, where it has that method, and its type's name.
pub record Publisher : Type 0 where
  pub named : Option String
  pub type_name : String

pub record State : Type 0 where
  pub versions : Assoc ℕ
  pub watchers : List ℕ
  pub subs : ℕ → Sub
  -- The address that the next channel takes.
  pub next : ℕ
  pub publisher : Option Publisher
  pub publisher_name : String
  -- The calls of PublishDocEvent.
  pub events : List (String × ℕ)

abbrev pub watch_out_buf : ℕ
watch_out_buf = 8

abbrev pub watch_internal_buf : ℕ
watch_internal_buf = 16

abbrev unused : Sub
unused = record { owner = ""; pending = []; closed = false; phase = ended; out = []; seen = [] }

-- New
abbrev pub new_store : State
new_store = record {
  versions = [];
  watchers = [];
  subs = λ _. unused;
  next = 0;
  publisher = none;
  publisher_name = "";
  events = [];
}

abbrev pub put : ℕ → Sub → (ℕ → Sub) → ℕ → Sub
put p sub heap q = if nat_eq p q then sub else heap q

abbrev pub version : String → State → ℕ
version owner s = or_else 0 (lookup owner s.versions)

abbrev pub publisher_name_of : Option Publisher → String
publisher_name_of none = ""
publisher_name_of (some p) = or_else p.type_name p.named

unfoldable pub set_publisher : Option Publisher → State → State
set_publisher p s = record s { publisher = p; publisher_name = publisher_name_of p }

-- What the `select` of bumpVersion leaves at an open channel: a full one is skipped.
abbrev pub offered : Event → Sub → Sub
offered event sub =
    if ltb (length sub.pending) watch_internal_buf
    then record sub { pending = sub.pending ++ event ∷ [] }
    else sub

-- The send of bumpVersion to one watcher. A send on a closed channel panics: `none`.
abbrev pub offer : Event → Sub → Option Sub
offer event sub = if sub.closed then none else some (offered event sub)

unfoldable pub send_all : List ℕ → Event → (ℕ → Sub) → Option (ℕ → Sub)
send_all [] event heap = some heap
send_all (p ∷ ps) event heap = offer event (heap p) >>= λ sub. send_all ps event (put p sub heap)

unfoldable pub bump_version : String → State → Option State
bump_version owner s =
    let v = (version owner s + 1) % 2 ^ 64 in
    send_all s.watchers (record { owner = owner; version = v }) s.subs >>= λ heap. some (record s {
      versions = insert owner v s.versions;
      subs = heap;
      events = elim s.publisher [ none ↦ s.events | some _ ↦ s.events ++ (owner, v) ∷ [] ];
    })

unfoldable pub watch : String → State → State
watch owner s = record s {
  watchers = s.watchers ++ s.next ∷ [];
  subs =
      put s.next
        record {
          owner = owner;
          pending = [];
          closed = false;
          phase = starting;
          out = [];
          seen = [];
        }
        s.subs;
  next = s.next + 1;
}

abbrev pub has_room : Sub → Bool
has_room sub = ltb (length sub.out) watch_out_buf

-- The goroutine between two events: an event of another owner is skipped, and the closed channel
-- ends the loop once it is empty.
abbrev pub take_event : List Event → Sub → Sub
take_event [] sub = if sub.closed then record sub { phase = ended } else sub
take_event (event ∷ rest) sub = record sub {
  pending = rest;
  phase = if event.owner == sub.owner then carrying event.version else running;
}

-- The goroutine's next step, `now` being what Version answers. The first send waits for room, and
-- each later one is dropped where there is none.
abbrev pub proceed : ℕ → Phase → Sub → Sub
proceed now starting sub = record sub { phase = greeting now }
proceed now (greeting v) sub =
    if has_room sub then record sub { phase = running; out = sub.out ++ v ∷ [] } else sub
proceed now running sub = take_event sub.pending sub
proceed now (carrying v) sub = record sub {
  phase = running;
  out = if has_room sub then sub.out ++ v ∷ [] else sub.out;
}
proceed now ended sub = sub

unfoldable pub go : ℕ → State → State
go p s =
    let sub = s.subs p in
    record s { subs = put p (proceed (version sub.owner s) sub.phase sub) s.subs }

-- The reader takes the oldest version of `out`.
abbrev pub read_from : List ℕ → Sub → Sub
read_from [] sub = sub
read_from (v ∷ rest) sub = record sub { out = rest; seen = sub.seen ++ v ∷ [] }

unfoldable pub read : ℕ → State → State
read p s = record s { subs = put p (read_from (s.subs p).out (s.subs p)) s.subs }

abbrev pub member : ℕ → List ℕ → Bool
member p [] = false
member p (q ∷ qs) = nat_eq q p || member p qs

-- The list without the first `p`.
abbrev pub without : ℕ → List ℕ → List ℕ
without p [] = []
without p (q ∷ qs) = if nat_eq q p then qs else q ∷ without p qs

abbrev pub unwatched : ℕ → State → State
unwatched p s = record s {
  watchers = without p s.watchers;
  subs = put p (record (s.subs p) { closed = true }) s.subs;
}

-- The function that Watch returns. To close a closed channel panics: `none`.
unfoldable pub cancel : ℕ → State → Option State
cancel p s =
    if member p s.watchers then if (s.subs p).closed then none else some (unwatched p s) else some s

-- Close, the documents left aside.
unfoldable pub close : State → State
close s = record s { versions = []; watchers = []; publisher = none; publisher_name = "" }

-- What may happen to the store next.
pub data Step : Type 0 where
  watches bumps : String → Step
  goes reads cancels : ℕ → Step
  publishes : Option Publisher → Step
  closes : Step

unfoldable pub step : Step → State → Option State
step (watches owner) s = some (watch owner s)
step (bumps owner) s = bump_version owner s
step (goes p) s = some (go p s)
step (reads p) s = some (read p s)
step (cancels p) s = cancel p s
step (publishes p) s = some (set_publisher p s)
step closes s = some (close s)

unfoldable pub run : List Step → State → Option State
run [] s = some s
run (x ∷ xs) s = step x s >>= run xs
