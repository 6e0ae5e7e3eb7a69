-- ===== src/Tests/Stores.antt =====
-- The PocketBase strategy, the handlers over it and the consumer, on a concrete table.
use cali_go_stack.Base.{
  ◌≡◌, ◌≢◌, refl, inr, String, true, false, some, none, [], ◌∷◌, arith, eq_iff, lookup, insert,
}
use cali_go_stack.Store.Entity.{Todo}
use cali_go_stack.Store.App.{Record}
use cali_go_stack.Store.App.Table.{Table, table_app, table_laws, save_row, select, discard, put}
use cali_go_stack.Store.Pb.{
  pb_store, get, create, update, foreign, owned, from_record, list, list_filter,
}
use cali_go_stack.Nats.Crud.{CrudPayload, consume, delete as delete_op}
use cali_go_stack.Nats.Crud.Consumer.{consume_isolated}
use cali_go_stack.Nats.Crud.Redelivery.{redelivered}
use cali_go_stack.Handlers.{Request, World, Wiring, handle_toggle, handle_delete}
use cali_go_stack.Handlers.Anonymous.{anonymous_delete}
use cali_go_stack.Handlers.Replication.{toggle_replicated}

-- Ann's open todo and Bob's completed one.
abbrev pub ann_row : Record
ann_row = record {
  id = "r1";
  owner = "ann";
  idem_key = "k1";
  title = "tea";
  completed = false;
  created = 1;
  updated = 1;
}

abbrev bob_row : Record
bob_row = record {
  id = "r2";
  owner = "bob";
  idem_key = "k2";
  title = "oil";
  completed = true;
  created = 2;
  updated = 2;
}

abbrev pub shared : Table
unfolding lookup
shared = record {
  rows = ("r1", ann_row) ∷ ("r2", bob_row) ∷ [];
  distinct = (refl, (refl, tt));
  keyed = (refl, (refl, tt));
}

pub ann_some : ◌≢◌ {A = String} "ann" ""
ann_some e = ground (arith, eq_iff "ann" "")

bob_some : ◌≢◌ {A = String} "bob" ""
bob_some e = ground (arith, eq_iff "bob" "")

ann_not_bob : ◌≢◌ {A = String} "ann" "bob"
ann_not_bob e = ground (arith, eq_iff "ann" "bob")

pub r1_some : ◌≢◌ {A = String} "r1" ""
r1_some e = ground (arith, eq_iff "r1" "")

tea_some : ◌≢◌ {A = String} "tea" ""
tea_some e = ground (arith, eq_iff "tea" "")

abbrev pub done_row : Todo
done_row = record { id = "r1"; title = "tea"; completed = true; created = 1; updated = 1 }

-- A request of Ann's for her todo, with every option on, over the shared table.
abbrev pub wiring : Wiring
wiring = record { publisher = true; onboarding = true }

abbrev pub asks : Request
asks = record {
  user = "ann";
  auth_failed = false;
  replayed = false;
  form_ok = true;
  id = "r1";
  title = "tea";
  idem_key = "k9";
  filter = "";
}

abbrev pub world : World Table
world = record { state = shared; published = []; resumed = [] }

abbrev made : Todo
made = record { id = "k9"; title = "tea"; completed = false; created = 0; updated = 0 }

abbrev with_made : Table
with_made =
    (create table_app
      (record { id = "k9"; title = "tea"; completed = false; created = 5; updated = 5 }) "ann" "k9"
      shared).1

anonymous_delete_example :
    table_app.find_by_id
      (handle_delete (pb_store table_app) wiring (record asks { user = "" }) world).1.state
      "r1"
    ≡ none
unfolding lookup
anonymous_delete_example =
    anonymous_delete table_app table_laws wiring (record asks { user = "" }) world ann_row
      (discard ann_row shared) refl refl refl

-- What Ann's toggle leaves on her instance.
abbrev pub toggled : World Table
toggled = (handle_toggle (pb_store table_app) wiring asks world).1

toggle_replicated_example :
    (p : CrudPayload) × (db : Table) × (here there : Record) × (toggled.published ≡ p ∷ [])
    × (consume table_app p shared ≡ (true, db))
    × (table_app.find_by_id toggled.state "r1" ≡ some here)
    × (table_app.find_by_id db "r1" ≡ some there)
    × (there.completed ≡ here.completed)
unfolding handle_toggle get update list list_filter owned foreign save_row select insert lookup
    from_record
toggle_replicated_example =
    toggle_replicated table_app table_app table_laws table_laws wiring asks world toggled
      (done_row ∷ []) none shared ann_row refl ann_some r1_some refl refl refl
      (λ flag. (
        put (record ann_row { completed = flag }) shared,
        record ann_row { completed = flag },
        refl,
      ))

-- The payload of a deletion by Bob.
abbrev drop : String → CrudPayload
drop id = record {
  op = delete_op;
  user = "bob";
  content = some (record { id = id; title = ""; completed = false });
}

consume_isolated_example :
    table_app.find_by_id (consume table_app (drop "r1") shared).1 "r1" ≡ some ann_row
unfolding lookup
consume_isolated_example =
    consume_isolated table_app table_laws (drop "r1") shared ann_row refl ann_some ann_not_bob

r2_some : ◌≢◌ {A = String} "r2" ""
r2_some e = ground (arith, eq_iff "r2" "")

redelivered_example :
    (consume table_app (drop "r2") (consume table_app (drop "r2") shared).1).1
    ≡ (consume table_app (drop "r2") shared).1
redelivered_example =
    redelivered table_app table_laws (drop "r2")
      (record { id = "r2"; title = ""; completed = false }) shared refl r2_some (inr refl)

-- Ann's page.
abbrev tea : Todo
tea = record { id = "r1"; title = "tea"; completed = false; created = 1; updated = 1 }

k1_some : ◌≢◌ {A = String} "k1" ""
k1_some e = ground (arith, eq_iff "k1" "")
