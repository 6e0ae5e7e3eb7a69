-- ===== src/Collab/Presence/Sweep.antt =====
-- What a tick of the expiry does to the roster and whom it tells.
use cali_go_stack.Base.{
  ℕ, ◌≡◌, refl, sym, subst, ap, ◌∙◌, String, true, false, inl, inr, Option, none, some, List, [],
  ◌∷◌, ◌++◌, ◌==◌, arith, eq_iff, Bool-cases, Assoc, lookup, Distinct, if◌then◌else◌,
}
use mathlib.Core.List.{append_assoc}
use cali_go_stack.Collab.Presence.{PresenceMsg, Presence, calls, stale, left, sweep, all_calls}

module _ {F : Type 0} (zero_coordinate : F) where
  -- What a tick of the expiry leaves of an entry.
  abbrev pub kept_entry : Presence F → ℕ → String → Option (PresenceMsg F) → Option (PresenceMsg F)
  kept_entry p now u none = none
  kept_entry p now u (some m) = if stale zero_coordinate p now u m then none else some m

  sweep_gone :
      (p : Presence F) (now : ℕ) (v : String) (m : PresenceMsg F) (rest : Assoc (PresenceMsg F))
      → stale zero_coordinate p now v m ≡ true
      → let (kept, expired) = sweep zero_coordinate p now rest in
        sweep zero_coordinate p now ((v, m) ∷ rest) ≡ (kept, left zero_coordinate p now v ∷ expired)
  unfolding sweep
  sweep_gone p now v m rest gone = rw gone

  sweep_stays :
      (p : Presence F) (now : ℕ) (v : String) (m : PresenceMsg F) (rest : Assoc (PresenceMsg F))
      → stale zero_coordinate p now v m ≡ false
      → let (kept, expired) = sweep zero_coordinate p now rest in
        sweep zero_coordinate p now ((v, m) ∷ rest) ≡ ((v, m) ∷ kept, expired)
  unfolding sweep
  sweep_stays p now v m rest fresh = rw fresh

  pub lookup-sweep :
      (p : Presence F) (now : ℕ) (u : String) (ms : Assoc (PresenceMsg F))
      → Distinct ms
      → lookup u (sweep zero_coordinate p now ms).0 ≡ kept_entry p now u (lookup u ms)
  unfolding lookup sweep
  lookup-sweep p now u [] d = refl
  lookup-sweep p now u ((v, m) ∷ rest) d =
      let later = lookup-sweep p now u rest d.1 in
      elim (Bool-cases (stale zero_coordinate p now v m)) [
        | inl gone ↦ ground (arith, sweep_gone p now v m rest gone, gone, later, d.0, eq_iff v u)
        | inr fresh ↦ ground (arith, sweep_stays p now v m rest fresh, fresh, later, eq_iff v u)
      ]

  pub sweep-Distinct :
      (p : Presence F) (now : ℕ) (ms : Assoc (PresenceMsg F))
      → Distinct ms
      → Distinct (sweep zero_coordinate p now ms).0
  unfolding sweep
  sweep-Distinct p now [] d = tt
  sweep-Distinct p now ((v, m) ∷ rest) d =
      let absent = lookup-sweep p now v rest d.1 ∙ ap (kept_entry p now v) d.0 in
      elim (Bool-cases (stale zero_coordinate p now v m)) [
        | inl gone ↦ rw (sweep_gone p now v m rest gone) (sweep-Distinct p now rest d.1)
        | inr fresh ↦ rw (sweep_stays p now v m rest fresh) (absent, sweep-Distinct p now rest d.1)
      ]

  -- One callback after another is told of the peer's leave, at some time.
  abbrev pub Told : Presence F → String → List (ℕ × PresenceMsg F) → Type 0
  Told p u log =
      (before after : List (ℕ × PresenceMsg F)) × (t : ℕ) × (log
        ≡ before ++ calls zero_coordinate p.handlers (left zero_coordinate p t u) ++ after)

  pub Told-append :
      (p : Presence F) (u : String) (log more : List (ℕ × PresenceMsg F))
      → Told p u log
      → Told p u (log ++ more)
  Told-append p u log more (before, after, t, same) = (
    before,
    after ++ more,
    t,
    ap (λ l. l ++ more) same
        ∙ append_assoc (before ++ calls zero_coordinate p.handlers (left zero_coordinate p t u))
            after more,
  )

  pub Told-behind :
      (p : Presence F) (u : String) (log more : List (ℕ × PresenceMsg F))
      → Told p u more
      → Told p u (log ++ more)
  Told-behind p u log more (before, after, t, same) = (
    log ++ before,
    after,
    t,
    rw (
      same,
      append_assoc log before (calls zero_coordinate p.handlers (left zero_coordinate p t u)),
      append_assoc log (before ++ calls zero_coordinate p.handlers (left zero_coordinate p t u))
          after,
    ),
  )

  pub sweep-Told :
      (p : Presence F) (now : ℕ) (u : String) (m : PresenceMsg F) (ms : Assoc (PresenceMsg F))
      → lookup u ms ≡ some m
      → stale zero_coordinate p now u m ≡ true
      → Told p u (all_calls zero_coordinate p.handlers (sweep zero_coordinate p now ms).1)
  unfolding lookup
  sweep-Told p now u m [] found gone = cc
  sweep-Told p now u m ((v, n) ∷ rest) found gone = elim (Bool-cases (v == u)) [
    | inl here ↦
        let same : v ≡ u = (eq_iff v u).0 here in
        let entry : n ≡ m = ground (arith, found, here) in
        let swept = sweep_gone p now v n rest (rw (same, entry) gone) in
        (
          [],
          all_calls zero_coordinate p.handlers (sweep zero_coordinate p now rest).1,
          now,
          rw (swept, same),
        )
    | inr apart ↦
        let later = sweep-Told p now u m rest (ground (arith, found, apart)) gone in
        elim (Bool-cases (stale zero_coordinate p now v n)) [
          | inl too ↦
              subst (λ x. Told p u (all_calls zero_coordinate p.handlers x.1))
                (sym (sweep_gone p now v n rest too)) (Told-behind p u _ _ later)
          | inr fresh ↦
              subst (λ x. Told p u (all_calls zero_coordinate p.handlers x.1))
                (sym (sweep_stays p now v n rest fresh)) later
        ]
  ]
