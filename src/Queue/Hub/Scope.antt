-- ===== src/Queue/Hub/Scope.antt =====
-- Who receives a broadcast: exactly the clients that it is for.
use cali_go_stack.Base.{
  ℕ, ◌≡◌, ◌≢◌, refl, sym, ap, ◌∙◌, String, Bool, true, false, not, ◌&&◌, some, [], ◌∷◌, arith, ◌==◌,
  eq_iff, Assoc, lookup, lookup_head, lookup_behind, lookup_skip, Distinct, if◌then◌else◌,
  Bool-cases, ◌⊎◌, inl, inr,
}
use mathlib.Core.Bool.{false≢true}
use mathlib.Core.Option.{none-ne-some}
use cali_go_stack.Queue.Chan.{Bytes, Channel, push, has_room}
use cali_go_stack.Queue.Hub.{
  Hub, Reason, offer, fan_out, broadcast_except, broadcast_to_user, belongs, slow_client_broadcast,
  slow_client_broadcast_user,
}
use cali_go_stack.Queue.Hub.Invariant.{IsValid}
use cali_go_stack.Queue.Hub.Offer.{offer_other}

-- What becomes of a channel that an event is offered to.
abbrev pub after_offer : Channel → Bytes → Channel
after_offer c event = if has_room c then push c event else c

offer_at :
    (h : Hub) (id : String) (ch : ℕ) (event : Bytes) (reason : Reason)
    → (offer h id ch event reason).channels ch ≡ after_offer (h.channels ch) event
unfolding offer
offer_at h id ch event reason = ground arith

module _ (wanted : String → Bool) (reason : Reason) (event : Bytes) where
  -- One round of the loop leaves the channels of the other clients alone.
  offer_aside :
      (h : Hub) (id : String) (c ch : ℕ)
      → (c ≡ ch → wanted id ≡ false)
      → (if wanted id then offer h id c event reason else h).channels ch ≡ h.channels ch
  offer_aside h id c ch u = elim (Bool-cases (wanted id)) [
    | inl yes_wanted ↦
        rw yes_wanted
          (offer_other h id c event reason ch (λ e. false≢true (sym (u (sym e)) ∙ yes_wanted)))
    | inr not_wanted ↦ rw not_wanted
  ]

  -- A channel that no wanted client holds is left as it is.
  pub fan_out_skips :
      (cs : Assoc ℕ) (h : Hub) (ch : ℕ)
      → Distinct cs
      → ((id : String) → lookup id cs ≡ some ch → wanted id ≡ false)
      → (fan_out wanted reason event cs h).channels ch ≡ h.channels ch
  unfolding fan_out
  fan_out_skips [] h ch d u = refl
  fan_out_skips ((id, c) ∷ rest) h ch d u =
      fan_out_skips rest (if wanted id then offer h id c event reason else h) ch d.1
        (λ j found. u j (lookup_behind j id c rest d.0 found))
      ∙ offer_aside h id c ch (λ e. u id (lookup_head id c rest ∙ ap some e))

  -- A channel that one wanted client holds alone is offered the event once.
  pub fan_out_reaches :
      (cs : Assoc ℕ) (h : Hub) (id : String) (ch : ℕ)
      → Distinct cs
      → lookup id cs ≡ some ch
      → wanted id ≡ true
      → ((j : String) → lookup j cs ≡ some ch → j ≡ id)
      → (fan_out wanted reason event cs h).channels ch ≡ after_offer (h.channels ch) event
  unfolding fan_out
  fan_out_reaches [] h id ch d f w alone = unfold lookup in absurd (none-ne-some _ f)
  fan_out_reaches ((j, c) ∷ rest) h id ch d f w alone = elim (Bool-cases (j == id)) [
    | inl same ↦
        let j_is_id = (eq_iff j id).0 same in
        let c_is_ch : c ≡ ch = cc (lookup_head j c rest, f, j_is_id) in
        fan_out_skips rest (if wanted j then offer h j c event reason else h) ch d.1
          (λ i found. cc (d.0, found, alone i (lookup_behind i j c rest d.0 found), j_is_id))
        ∙ rw (j_is_id, w, c_is_ch) (offer_at h id ch event reason)
    | inr other ↦
        let found : lookup id rest ≡ some ch = sym (lookup_skip id j c rest other) ∙ f in
        let aside = offer_aside h j c ch (λ e. absurd (
          false≢true (sym other ∙ (eq_iff j id).1 (alone j (lookup_head j c rest ∙ ap some e))))) in
        fan_out_reaches rest (if wanted j then offer h j c event reason else h) id ch d.1 found w
          (λ i at. alone i (lookup_behind i j c rest d.0 at))
        ∙ ap (λ (k : Channel). after_offer k event) aside
  ]

-- On a valid hub a broadcast to a user reaches every client of that user that holds its channel
-- alone and is not the excluded one: its channel is offered the event exactly once.
pub broadcast_to_user_reaches :
    (h : Hub) (event : Bytes) (user exclude id : String) (ch : ℕ)
    → IsValid h
    → lookup id h.clients ≡ some ch
    → lookup id h.user_of ≡ some user
    → id ≢ exclude
    → ((j : String) → lookup j h.clients ≡ some ch → j ≡ id)
    → (broadcast_to_user h event user exclude).channels ch ≡ after_offer (h.channels ch) event
unfolding broadcast_to_user
broadcast_to_user_reaches h event user exclude id ch v registered owned ne alone =
    fan_out_reaches _ slow_client_broadcast_user event h.clients h id ch v.clients_distinct
      registered (ground (arith, owned, eq_iff id exclude, eq_iff user user)) alone

-- On a valid hub no other user's tab sees a broadcast to a user: a channel that only clients of
-- other users, or the excluded client, hold is left exactly as it was.
pub broadcast_to_user_isolated :
    (h : Hub) (event : Bytes) (user exclude : String) (ch : ℕ)
    → IsValid h
    → ((id : String)
        → lookup id h.clients ≡ some ch
        → (id ≡ exclude) ⊎ ((owner : String) × (lookup id h.user_of ≡ some owner) × (owner ≢ user)))
    → (broadcast_to_user h event user exclude).channels ch ≡ h.channels ch
unfolding broadcast_to_user
broadcast_to_user_isolated h event user exclude ch v apart =
    fan_out_skips _ slow_client_broadcast_user event h.clients h ch v.clients_distinct
      (λ id found. stranger id (apart id found))
  where
    stranger :
        (id : String)
        → ((id ≡ exclude)
            ⊎ ((owner : String) × (lookup id h.user_of ≡ some owner) × (owner ≢ user)))
        → (not (id == exclude) && belongs h user id) ≡ false
    stranger id (inl same) = ground (arith, eq_iff id exclude)
    stranger id (inr (owner, owned, ne)) = ground (arith, eq_iff owner user, eq_iff id exclude)

-- On a valid hub a broadcast that leaves one client out offers the event once to the channel of
-- each other client that holds its channel alone, and leaves the channel of the client left out,
-- if that client alone holds it, as it was.
pub broadcast_except_exact :
    (h : Hub) (event : Bytes) (exclude id : String) (ch : ℕ)
    → IsValid h
    → lookup id h.clients ≡ some ch
    → ((j : String) → lookup j h.clients ≡ some ch → j ≡ id)
    → (broadcast_except h event exclude).channels ch
      ≡ (if id == exclude then h.channels ch else after_offer (h.channels ch) event)
unfolding broadcast_except
broadcast_except_exact h event exclude id ch v registered alone =
    elim (Bool-cases (id == exclude)) [
      | inl same ↦ rw same (
          fan_out_skips _ slow_client_broadcast event h.clients h ch v.clients_distinct
            (λ j found. rw (alone j found, same)))
      | inr other ↦ rw other (
          fan_out_reaches _ slow_client_broadcast event h.clients h id ch v.clients_distinct
            registered (rw other) alone)
    ]
