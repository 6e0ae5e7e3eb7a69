-- ===== src/Queue/Hub/Frame.antt =====
-- What the loops over channels leave alone: the tables of the hub.
use cali_go_stack.Base.{
  ℕ, ◌≡◌, refl, String, Bool, List, [], ◌∷◌, arith, Assoc, Bool-cases, inl, inr,
}
use cali_go_stack.Queue.Chan.{Bytes}
use cali_go_stack.Queue.Hub.{Hub, Reason, offer, replay, fan_out, slow_client_replay}

-- The tables of two hubs agree; their channels and drops may differ.
pub record SameTables (h k : Hub) : Type 0 where
  pub clients : k.clients ≡ h.clients
  pub buffer : k.buffer ≡ h.buffer
  pub user_of : k.user_of ≡ h.user_of
  pub max_buffer : k.max_buffer ≡ h.max_buffer

pub SameTables-refl : (h : Hub) → SameTables h h
SameTables-refl h = record { clients = refl; buffer = refl; user_of = refl; max_buffer = refl }

pub SameTables-trans : {h k l : Hub} → SameTables h k → SameTables k l → SameTables h l
SameTables-trans a b = ground arith

pub offer-SameTables :
    (h : Hub) (id : String) (ch : ℕ) (event : Bytes) (reason : Reason)
    → SameTables h (offer h id ch event reason)
unfolding offer
offer-SameTables h id ch event reason = ground arith

pub replay-SameTables :
    (h : Hub) (id : String) (ch : ℕ) (events : List Bytes) → SameTables h (replay h id ch events)
unfolding replay
replay-SameTables h id ch [] = SameTables-refl h
replay-SameTables h id ch (event ∷ rest) =
    SameTables-trans (unfold offer in offer-SameTables h id ch event slow_client_replay)
      (replay-SameTables (offer h id ch event slow_client_replay) id ch rest)

pub fan_out-SameTables :
    (wanted : String → Bool) (reason : Reason) (event : Bytes) (cs : Assoc ℕ) (h : Hub)
    → SameTables h (fan_out wanted reason event cs h)
unfolding fan_out
fan_out-SameTables wanted reason event [] h = SameTables-refl h
fan_out-SameTables wanted reason event ((id, ch) ∷ rest) h = elim (Bool-cases (wanted id)) [
  | inl e ↦ rw e (
      SameTables-trans (offer-SameTables h id ch event reason)
        (fan_out-SameTables wanted reason event rest (offer h id ch event reason)))
  | inr e ↦ rw e (fan_out-SameTables wanted reason event rest h)
]
