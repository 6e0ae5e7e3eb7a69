-- ===== src/Collab/Sync/Fanout.antt =====
-- Who sees an op.
use cali_go_stack.Base.{ℕ, ◌≡◌, ◌∙◌, ap, String, some, List, arith, lookup, if◌then◌else◌, ◌==◌}
use cali_go_stack.Queue.Chan.{Bytes}
use cali_go_stack.Queue.Hub.{Hub, broadcast_except}
use cali_go_stack.Queue.Hub.Invariant.{IsValid}
use cali_go_stack.Queue.Hub.Scope.{after_offer, broadcast_except_exact}
use cali_go_stack.Collab.Shapes.{Shape, ShapeOp, Board, apply_shape_op}
use cali_go_stack.Collab.Sync.{Instance, Persister, apply_op, on_sync, get_or_create}

module _ {F P : Type 0} (b : Board F) (per : Persister P)
    (update_event : (doc from : String) → Bytes → Bytes)
    (shapes_event : (doc from : String) → List (Shape F) → Bytes) where
  open b use {Doc}

  abbrev board_of : String → Instance Doc P → Doc × Instance Doc P
  board_of = get_or_create b per update_event shapes_event

  hub-get_or_create : (doc : String) (i : Instance Doc P) → (board_of doc i).1.hub ≡ i.hub
  unfolding get_or_create
  hub-get_or_create doc i = ground arith

  hub-apply_op :
      (i : Instance Doc P) (doc from : String) (o : ShapeOp F) (ss : List (Shape F)) (d : Doc)
      → apply_shape_op b o (board_of doc i).0 ≡ (some ss, d)
      → (apply_op b per update_event shapes_event doc from o i).1.hub
        ≡ broadcast_except i.hub (shapes_event doc from ss) from
  unfolding apply_op
  hub-apply_op i doc from o ss d applied =
      rw (applied)
        (ap (λ h. broadcast_except h (shapes_event doc from ss) from) (hub-get_or_create doc i))

  hub-on_sync :
      (i : Instance Doc P) (subject : String) (update : Bytes)
      → (on_sync b per update_event shapes_event subject update i).hub ≡ i.hub
  unfolding on_sync get_or_create
  hub-on_sync i subject update = ground arith

  -- The shapes of a board after an op that applies go to every client of the hub that holds its
  -- channel alone, where there is room, whichever board that client has open, and not to the sender.
  -- An update that arrives from another instance goes to nobody.
  pub shapes_reach_every_board :
      (i : Instance Doc P) (doc from : String) (o : ShapeOp F) (ss : List (Shape F)) (d : Doc)
      (id : String) (ch : ℕ) (subject : String) (update : Bytes)
      → IsValid i.hub
      → lookup id i.hub.clients ≡ some ch
      → ((j : String) → lookup j i.hub.clients ≡ some ch → j ≡ id)
      → apply_shape_op b o (get_or_create b per update_event shapes_event doc i).0 ≡ (some ss, d)
      → let i' = (apply_op b per update_event shapes_event doc from o i).1 in
        let synced = on_sync b per update_event shapes_event subject update i in
        (i'.hub.channels ch ≡ (
          if id == from
          then i.hub.channels ch
          else after_offer (i.hub.channels ch) (shapes_event doc from ss)))
        × (synced.hub ≡ i.hub)
  shapes_reach_every_board i doc from o ss d id ch subject update valid held alone applied = (
    ap (λ (h : Hub). h.channels ch) (hub-apply_op i doc from o ss d applied)
        ∙ broadcast_except_exact i.hub (shapes_event doc from ss) from id ch valid held alone,
    hub-on_sync i subject update,
  )
