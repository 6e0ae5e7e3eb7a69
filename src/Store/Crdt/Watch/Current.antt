-- ===== src/Store/Crdt/Watch/Current.antt =====
-- features/store/crdtstore/crdtstore.go: the newest version that a watch's reader is sent, through
-- each move of the goroutine, of the reader and of bumpVersion.
use cali_go_stack.Base.{
  ℕ, ◌≡◌, refl, String, Bool, true, false, ◌&&◌, Option, none, some, List, [], ◌∷◌, ◌++◌, arith,
  sym, ◌==◌, eq_iff, nat_eq, length, ltb, if◌then◌else◌, ◌⊎◌,
}
use cali_go_stack.Store.Crdt.Watch.{
  Event, Sub, State, Phase, starting, running, ended, greeting, carrying, Step, bumps, goes,
  cancels, closes, offered, watch_internal_buf, has_room, proceed, take_event, read_from,
}
use cali_go_stack.Store.Crdt.Watch.Panics.{stepped}

-- Whether nothing is lost to the watch at `p` by the step: it is not cancelled, the store is not
-- closed, and a version of its owner finds room in `internal` and then in `out`.
abbrev pub can_send : Phase → Sub → Bool
can_send (carrying v) sub = has_room sub
can_send _ sub = true

abbrev pub keeps : ℕ → Step → State → Bool
keeps p (bumps owner) s =
    if owner == (s.subs p).owner then ltb (length (s.subs p).pending) watch_internal_buf else true
keeps p (goes q) s = if nat_eq q p then can_send (s.subs p).phase (s.subs p) else true
keeps p (cancels q) s = if nat_eq q p then false else true
keeps p closes s = false
keeps p _ s = true

unfoldable pub attentive : ℕ → List Step → State → Bool
attentive p [] s = true
attentive p (x ∷ xs) s = keeps p x s && attentive p xs (stepped x s)

abbrev pub otherwise : Option ℕ → Option ℕ → Option ℕ
otherwise none o = o
otherwise (some v) o = some v

abbrev pub last? : List ℕ → Option ℕ
last? [] = none
last? (v ∷ vs) = otherwise (last? vs) (some v)

pub last?-append : (xs ys : List ℕ) → last? (xs ++ ys) ≡ otherwise (last? ys) (last? xs)
last?-append [] ys = ground arith
last?-append (x ∷ xs) ys = ground (arith, last?-append xs ys)

-- The versions of the owner among the events.
abbrev pub own : String → List Event → List ℕ
own owner [] = []
own owner (e ∷ es) = if e.owner == owner then e.version ∷ own owner es else own owner es

pub own-append :
    (owner : String) (es : List Event) (e : Event)
    → own owner (es ++ e ∷ [])
      ≡ (if e.owner == owner then own owner es ++ e.version ∷ [] else own owner es)
own-append owner [] e = ground arith
own-append owner (f ∷ es) e = ground (arith, own-append owner es e)

abbrev pub held : Phase → Option ℕ
held (greeting v) = some v
held (carrying v) = some v
held _ = none

-- The newest version that the reader has taken or will take.
abbrev pub newest : Sub → Option ℕ
newest sub =
    otherwise (last? (own sub.owner sub.pending))
      (otherwise (held sub.phase) (otherwise (last? sub.out) (last? sub.seen)))

-- It is the current one, unless the goroutine has not begun and there is none.
abbrev pub IsCurrent : ℕ → Sub → Type 0
IsCurrent now sub = (newest sub ≡ some now) ⊎ ((sub.phase ≡ starting) × (newest sub ≡ none))

pub take_event-IsCurrent :
    (now : ℕ) (es : List Event) (sub : Sub)
    → es ≡ sub.pending
    → sub.phase ≡ running
    → sub.closed ≡ false
    → IsCurrent now sub
    → IsCurrent now (take_event es sub)
take_event-IsCurrent now [] sub e awake open_still h = ground arith
take_event-IsCurrent now (f ∷ es) sub e awake open_still h = ground arith

pub proceed-IsCurrent :
    (now : ℕ) (phase : Phase) (sub : Sub)
    → phase ≡ sub.phase
    → sub.closed ≡ false
    → can_send phase sub ≡ true
    → IsCurrent now sub
    → IsCurrent now (proceed now phase sub)
proceed-IsCurrent now starting sub e open_still room h = ground arith
proceed-IsCurrent now (greeting v) sub e open_still room h =
    ground (arith, last?-append sub.out (v ∷ []))
proceed-IsCurrent now running sub e open_still room h =
    take_event-IsCurrent now sub.pending sub refl (sym e) open_still h
proceed-IsCurrent now (carrying v) sub e open_still room h =
    ground (arith, last?-append sub.out (v ∷ []))
proceed-IsCurrent now ended sub e open_still room h = h

pub read_from-IsCurrent :
    (now : ℕ) (vs : List ℕ) (sub : Sub)
    → vs ≡ sub.out
    → IsCurrent now sub
    → IsCurrent now (read_from vs sub)
read_from-IsCurrent now [] sub e h = h
read_from-IsCurrent now (v ∷ vs) sub e h = ground (arith, last?-append sub.seen (v ∷ []))

pub offered-IsCurrent :
    (event : Event) (sub : Sub)
    → event.owner ≡ sub.owner
    → ltb (length sub.pending) watch_internal_buf ≡ true
    → IsCurrent event.version (offered event sub)
offered-IsCurrent event sub same room = ground (
  arith,
  own-append sub.owner sub.pending event,
  eq_iff event.owner sub.owner,
  last?-append (own sub.owner sub.pending) (event.version ∷ []),
)

-- An event of another owner changes nothing for the reader.
pub offered_foreign :
    (now : ℕ) (event : Event) (sub : Sub)
    → (event.owner == sub.owner) ≡ false
    → IsCurrent now sub
    → IsCurrent now (offered event sub)
offered_foreign now event sub other h = ground (arith, own-append sub.owner sub.pending event)

pub settled :
    (now : ℕ) (sub : Sub)
    → sub.phase ≡ running
    → sub.pending ≡ []
    → IsCurrent now sub
    → last? (sub.seen ++ sub.out) ≡ some now
settled now sub between empty h = ground (arith, last?-append sub.seen sub.out)
