-- ===== src/Queue/Hub/Offer.antt =====
-- One event offered to one channel: delivered at its end if there is room, and reported if not.
use cali_go_stack.Base.{ℕ, ◌≤◌, ◌<◌, ◌≡◌, ◌≢◌, String, [], ◌∷◌, ◌++◌, arith, length}
use cali_go_stack.Queue.Chan.{Bytes, push}
use cali_go_stack.Queue.Hub.{Hub, Reason, offer}

module _ (h : Hub) (id : String) (ch : ℕ) (event : Bytes) (reason : Reason) where
  pub offer_room :
      length (h.channels ch).pending < (h.channels ch).capacity
      → ((offer h id ch event reason).channels ch ≡ push (h.channels ch) event)
        × ((offer h id ch event reason).drops ≡ h.drops)
  unfolding offer
  offer_room room = ground arith

  pub offer_full :
      (h.channels ch).capacity ≤ length (h.channels ch).pending
      → ((offer h id ch event reason).channels ≡ h.channels)
        × ((offer h id ch event reason).drops
            ≡ h.drops ++ record { client = id; event = event; reason = reason } ∷ [])
  unfolding offer
  offer_full full = ground arith

  pub offer_other : (p : ℕ) → p ≢ ch → (offer h id ch event reason).channels p ≡ h.channels p
  unfolding offer
  offer_other p ne = ground arith
