-- ===== src/Tests/Docs.antt =====
-- The CRDT strategy on a concrete table and a concrete document.
use cali_go_stack.Base.{
  ℕ, ◌≡◌, ◌≢◌, refl, String, true, false, none, [], ◌∷◌, arith, eq_iff, lookup, insert,
}
use cali_go_stack.Store.Entity.{Todo, ok}
use cali_go_stack.Store.App.Table.{empty, table_app, select, insert_row}
use cali_go_stack.Store.Loro.Plain.{plain_loro, no_items, put_at}
use cali_go_stack.Store.Items.{todo_from_loro, todos_of, write_fields, find_item, rehydrate}
use cali_go_stack.Store.Projection.{upsert, upsert_all, delete_stale, project}
use cali_go_stack.Store.Crdt.{
  Wired, Crdt, version, bump_version, publish_op, doc, persist, create, get, delete,
  apply_remote_op,
}
use cali_go_stack.Store.Crdt.Reads.{create_settles}
use cali_go_stack.Store.Crdt.Scope.{others_kept}
use cali_go_stack.Store.Crdt.Remote.{apply_remote_op_merges}

abbrev pub wired : Wired
wired = record { transport = true; publisher = true }

-- Nothing is stored yet.
abbrev start : Crdt table_app plain_loro
start = record { docs = []; versions = []; db = empty; ops = []; events = [] }

abbrev milk : Todo
milk = record { id = "k9"; title = "milk"; completed = false; created = 0; updated = 0 }

-- It is half past the third second.
abbrev pub now : ℕ
now = 3500000000

abbrev pub stored_milk : Todo
stored_milk = record milk { created = 3000000000; updated = 3000000000 }

abbrev pub with_milk : Crdt table_app plain_loro
with_milk = (create table_app plain_loro wired now milk "ann" "" start).1

create_settles_example :
    get table_app plain_loro wired 9 "ann" "k9" with_milk ≡ (ok stored_milk, with_milk)
unfolding create doc rehydrate write_fields find_item project upsert upsert_all delete_stale
    todos_of todo_from_loro insert_row select put_at lookup insert publish_op bump_version persist
create_settles_example =
    (create_settles table_app plain_loro wired now 9 milk milk "ann" "" "again" stored_milk start
      with_milk refl refl).0

bob_not_ann : ◌≢◌ {A = String} "bob" "ann"
bob_not_ann e = ground (arith, eq_iff "bob" "ann")

others_kept_example : lookup "bob" with_milk.versions ≡ none
unfolding lookup
others_kept_example =
    (others_kept table_app plain_loro wired "ann" "bob" now start milk "" "k9" "" [] []
      bob_not_ann).0.1

abbrev emptied : Crdt table_app plain_loro
emptied = (delete table_app plain_loro wired 5 "ann" "k9" with_milk).1

apply_remote_op_merges_example :
    version "ann" (apply_remote_op table_app plain_loro wired 5 "ann" (7 ∷ []) start).1 ≡ 2
unfolding apply_remote_op doc rehydrate project upsert upsert_all delete_stale todos_of select
    lookup insert bump_version persist
apply_remote_op_merges_example =
    (apply_remote_op_merges table_app plain_loro wired 5 "ann" (7 ∷ []) no_items no_items start
      (record start { docs = ("ann", no_items) ∷ [] })
      (apply_remote_op table_app plain_loro wired 5 "ann" (7 ∷ []) start).1 (λ e. cc) refl refl
      refl).1
