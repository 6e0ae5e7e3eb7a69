-- ===== src/Store/Contract/Crdt.antt =====
-- features/store/crdtstore/crdtstore.go keeps the contract, for an owner with an identity whose
-- document is in memory.
use cali_go_stack.Base.{ℕ, ◌≡◌, ◌≢◌, String}
use cali_go_stack.Store.App.{App}
use cali_go_stack.Store.Loro.{Loro, LoroLaws}
use cali_go_stack.Store.Items.{find_item}
use cali_go_stack.Store.Crdt.{Wired, Crdt}
use cali_go_stack.Store.Crdt.Docs.{Held}
use cali_go_stack.Store.Contract.{Todos}
use cali_go_stack.Store.Contract.Listed.{AreItems}

module _ (a : App) (l : Loro) (laws : LoroLaws l) (e : Wired) (now : ℕ) (user : String)
    (known : user ≢ "") where
  open l use {Doc}

  -- The owner's document is in memory, its entries are items, and they are the todos.
  abbrev pub Shows : Doc → Todos → Type 0
  Shows d m = AreItems l laws d × ((id : String) → find_item l d id ≡ m id)

  abbrev pub Holds : Crdt a l → Todos → Type 0
  Holds s m = (d : Doc) × Held a l e user d s × Shows d m
