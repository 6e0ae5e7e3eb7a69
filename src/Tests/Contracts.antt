-- ===== src/Tests/Contracts.antt =====
-- The strategies as implementations of the contract, on a concrete table and a concrete document.
use cali_go_stack.Base.{
  ◌≡◌, refl, subst, Bool-cases, inl, inr, ◌==◌, false, not, some, none, [], ◌∷◌, lookup, insert,
}
use mathlib.Core.Option.{some-injective}
use cali_go_stack.Store.Entity.{Todo}
use cali_go_stack.Store.App.{All, Record}
use cali_go_stack.Store.App.Table.{table_app, table_laws, save_row, select}
use cali_go_stack.Store.Pb.{pb_store, get, owned, foreign, from_record, list, list_filter, update}
use cali_go_stack.Store.Crdt.{get as crdt_get}
use cali_go_stack.Store.Contract.{Todos, put}
use cali_go_stack.Store.Contract.Pb.{todo_of, pb_store-Refines, Holds, AreOwned}
use cali_go_stack.Handlers.{handle_toggle}
use cali_go_stack.Handlers.Abstract.{toggle_refined}
use cali_go_stack.Tests.Stores.{ann_some, r1_some, shared, wiring, asks, world, done_row, toggled}

-- Ann's todos of the shared table.
abbrev anns : Todos
anns id = todo_of (owned table_app "ann" id shared)

abbrev HasOwner : Record → Type 0
HasOwner r = (r.owner == "") ≡ false

shared_owned : AreOwned table_app table_laws "ann" ann_some shared
unfolding lookup
shared_owned id r = elim (Bool-cases ("r1" == id)) [
  | inl first ↦ rw (first, lookup) (λ there. subst HasOwner (some-injective _ _ there) refl)
  | inr rest ↦ elim (Bool-cases ("r2" == id)) [
    | inl second ↦
        rw (rest, second, lookup) (λ there. subst HasOwner (some-injective _ _ there) refl)
    | inr absent ↦ rw (rest, absent, lookup) (λ there. cc)
  ]
]

anns_hold : Holds table_app table_laws "ann" ann_some shared anns
anns_hold = (shared_owned, λ id. refl)

toggle_refined_example :
    (before after : Todo) × (anns "r1" ≡ some before)
    × (after.id ≡ "r1")
    × (after.completed ≡ not before.completed)
    × Holds table_app table_laws "ann" ann_some toggled.state (put after anns)
    × All (λ t. put after anns t.id ≡ some t) (done_row ∷ [])
unfolding handle_toggle get update list list_filter owned foreign save_row select insert lookup
    from_record
toggle_refined_example =
    toggle_refined (pb_store table_app) wiring asks (Holds table_app table_laws "ann" ann_some)
      (pb_store-Refines table_app table_laws "ann" ann_some) world toggled anns (done_row ∷ []) none
      anns_hold r1_some refl
