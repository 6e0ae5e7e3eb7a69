-- ===== src/Store/Crdt/Watch/Fan.antt =====
-- features/store/crdtstore/crdtstore.go: the loop of bumpVersion over the watchers, and the list of them.
use cali_go_stack.Base.{
  ℕ, ◌≡◌, refl, true, false, Option, some, List, [], ◌∷◌, ◌++◌, arith, nat_eq, ◌∙◌, ap, ◌>>=◌,
  if◌then◌else◌,
}
use cali_go_stack.Store.Crdt.Watch.{Event, Sub, put, offered, offer, send_all, member, without}

-- No address stands twice.
abbrev pub Nodup : List ℕ → Type 0
Nodup [] = Unit
Nodup (p ∷ ps) = (member p ps ≡ false) × Nodup ps

abbrev pub AreOpen : (ℕ → Sub) → List ℕ → Type 0
AreOpen heap ps = (q : ℕ) → member q ps ≡ true → (heap q).closed ≡ false

unfoldable pub sent : List ℕ → Event → (ℕ → Sub) → ℕ → Sub
sent [] event heap = heap
sent (p ∷ ps) event heap = sent ps event (put p (offered event (heap p)) heap)

offer_open :
    (event : Event) (sub : Sub) → sub.closed ≡ false → offer event sub ≡ some (offered event sub)
offer_open event sub h = ground arith

-- At open channels the loop comes through.
pub send_all-sent :
    (ps : List ℕ) (event : Event) (heap : ℕ → Sub)
    → AreOpen heap ps
    → send_all ps event heap ≡ some (sent ps event heap)
unfolding send_all sent
send_all-sent [] event heap all = refl
send_all-sent (p ∷ ps) event heap all =
    ap (λ (o : Option Sub). o >>= λ sub. send_all ps event (put p sub heap))
      (offer_open event (heap p) (all p (ground arith)))
    ∙ send_all-sent ps event (put p (offered event (heap p)) heap)
        (λ q held. ground (arith, all q, all p))

-- Each watcher is offered the event once, and no other watch is touched.
pub sent_at :
    (ps : List ℕ) (event : Event) (heap : ℕ → Sub) (q : ℕ)
    → Nodup ps
    → sent ps event heap q ≡ (if member q ps then offered event (heap q) else heap q)
unfolding sent
sent_at [] event heap q once = refl
sent_at (p ∷ ps) event heap q once =
    ground (arith, sent_at ps event (put p (offered event (heap p)) heap) q once.1)

pub member-append :
    (q : ℕ) (ps : List ℕ) (p : ℕ)
    → member q (ps ++ p ∷ []) ≡ (if member q ps then true else nat_eq p q)
member-append q [] p = ground arith
member-append q (r ∷ ps) p = ground (arith, member-append q ps p)

pub Nodup-append : (ps : List ℕ) (p : ℕ) → member p ps ≡ false → Nodup ps → Nodup (ps ++ p ∷ [])
Nodup-append [] p new once = (refl, tt)
Nodup-append (r ∷ ps) p new once =
    (ground (arith, member-append r ps p), Nodup-append ps p (ground arith) once.1)

pub member-without :
    (q p : ℕ) (ps : List ℕ)
    → Nodup ps
    → member q (without p ps) ≡ (if nat_eq p q then false else member q ps)
member-without q p [] once = ground arith
member-without q p (r ∷ ps) once = ground (arith, member-without q p ps once.1, once.0)

pub Nodup-without : (p : ℕ) (ps : List ℕ) → Nodup ps → Nodup (without p ps)
Nodup-without p [] once = tt
Nodup-without p (r ∷ ps) once =
    ground (arith, member-without r p ps once.1, Nodup-without p ps once.1)
