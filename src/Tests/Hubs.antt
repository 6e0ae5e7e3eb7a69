-- ===== src/Tests/Hubs.antt =====
-- The SSE hub on concrete clients and channels.
use cali_go_stack.Base.{
  false, ◌≡◌, ◌≢◌, ◌⊎◌, sym, subst, refl, String, some, [], ◌∷◌, arith, eq_iff, map, lookup, inr,
}
use cali_go_stack.Queue.Chan.{Bytes, Channels}
use cali_go_stack.Queue.Hub.{
  Hub, slow_client_replay, sends, registers, receives, register, run, program, broadcast_to_user,
  unregister_if_current, new_hub, buffered, count_user_clients, send_blocking, waits,
}
use cali_go_stack.Queue.Hub.Invariant.{IsValid, run-new_hub-IsValid}
use cali_go_stack.Queue.Hub.Replay.{reconnect_replays}
use cali_go_stack.Queue.Hub.Scope.{broadcast_to_user_reaches, broadcast_to_user_isolated}
use cali_go_stack.Queue.Hub.Reconnect.{stale_handler_keeps}

abbrev pub small : Channels
small p = record { capacity = 2; pending = [] }

abbrev pub hi : Bytes
hi = 104 ∷ 105 ∷ []

abbrev yo : Bytes
yo = 121 ∷ 111 ∷ []

abbrev ok_bytes : Bytes
ok_bytes = 111 ∷ 107 ∷ []

-- A hub with a ring of two, and nobody connected.
abbrev pub quiet : Hub
quiet = record {
  clients = [];
  buffer = [];
  user_of = [];
  max_buffer = 2;
  channels = small;
  drops = [];
}

-- Two tabs of Ann on channels 1 and 2, and one of Bob on channel 3.
abbrev pub busy : Hub
busy = record quiet {
  clients = ("a1", 1) ∷ ("a2", 2) ∷ ("b", 3) ∷ [];
  user_of = ("a1", "ann") ∷ ("a2", "ann") ∷ ("b", "bob") ∷ [];
}

pub busy-IsValid : IsValid busy
unfolding lookup
busy-IsValid = record {
  bounded = λ id. omega arith;
  paired = λ id. ground (arith, eq_iff "a1" id, eq_iff "a2" id, eq_iff "b" id);
  clients_distinct = (refl, (refl, (refl, tt)));
  users_distinct = (refl, (refl, (refl, tt)));
  buffers_distinct = tt;
}

reconnect_replays_example :
    let h = register (run quiet (map (sends "a1") (hi ∷ yo ∷ ok_bytes ∷ []))) "a1" "ann" 1 in
    ((h.channels 1).pending ≡ yo ∷ ok_bytes ∷ []) × (h.drops ≡ []) × (buffered h "a1" ≡ [])
unfolding lookup
reconnect_replays_example =
    reconnect_replays quiet "a1" "ann" 1 2 (hi ∷ yo ∷ ok_bytes ∷ []) refl (omega arith)
      (omega arith) (omega arith) refl

-- Channel 3 is Bob's tab's alone, and channel 2 that of Ann's second tab.
holder_3 : (id : String) → lookup id busy.clients ≡ some 3 → id ≡ "b"
unfolding lookup
holder_3 id found = ground (arith, eq_iff "a1" id, eq_iff "a2" id, eq_iff "b" id)

pub holder_2 : (id : String) → lookup id busy.clients ≡ some 2 → id ≡ "a2"
unfolding lookup
holder_2 id found = ground (arith, eq_iff "a1" id, eq_iff "a2" id, eq_iff "b" id)

bob_apart :
    (id : String)
    → lookup id busy.clients ≡ some 3
    → (id ≡ "a1") ⊎ ((owner : String) × (lookup id busy.user_of ≡ some owner) × (owner ≢ "ann"))
unfolding lookup
bob_apart id found =
    let is_b = holder_3 id found in
    inr (
      "bob",
      subst (λ i. lookup i busy.user_of ≡ some "bob") (sym is_b) refl,
      λ e. ground (arith, eq_iff "bob" "ann"),
    )

a2_not_a1 : ◌≢◌ {A = String} "a2" "a1"
a2_not_a1 e = ground (arith, eq_iff "a2" "a1")

broadcast_to_user_isolated_example : (broadcast_to_user busy hi "ann" "a1").channels 3 ≡ small 3
broadcast_to_user_isolated_example =
    broadcast_to_user_isolated busy hi "ann" "a1" 3 busy-IsValid bob_apart

broadcast_to_user_reaches_example :
    (broadcast_to_user busy hi "ann" "a1").channels 2 ≡ record { capacity = 2; pending = hi ∷ [] }
unfolding lookup
broadcast_to_user_reaches_example =
    broadcast_to_user_reaches busy hi "ann" "a1" "a2" 2 busy-IsValid refl refl a2_not_a1 holder_2

stale_handler_keeps_example :
    let h = run (register quiet "a1" "ann" 2) (sends "a1" hi ∷ receives 2 ∷ []) in
    (unregister_if_current h "a1" 1 ≡ h) × (lookup "a1" h.clients ≡ some 2)
stale_handler_keeps_example =
    stale_handler_keeps quiet "a1" "ann" 1 2 (sends "a1" hi ∷ receives 2 ∷ []) (omega arith)
      (tt, (tt, tt))

run-new_hub-IsValid_example :
    IsValid
      (run (new_hub (some 2) small) (registers "a1" "ann" 1 ∷ sends "a1" hi ∷ sends "b" yo ∷ []))
run-new_hub-IsValid_example =
    run-new_hub-IsValid (some 2) small (registers "a1" "ann" 1 ∷ sends "a1" hi ∷ sends "b" yo ∷ [])

-- Channel 1 is full here.
abbrev full : Hub
full = record busy { channels = λ p. record { capacity = 1; pending = yo ∷ [] } }

-- A replay buffer of two events, and room for one.
abbrev waiting : Hub
waiting = record quiet {
  buffer = ("a1", hi ∷ yo ∷ []) ∷ [];
  channels = λ p. record { capacity = 1; pending = [] };
}

-- The same run, computed.
register_computed :
    (((register waiting "a1" "ann" 1).channels 1).pending ≡ hi ∷ [])
    × ((register waiting "a1" "ann" 1).drops
        ≡ record { client = "a1"; event = yo; reason = slow_client_replay } ∷ [])
unfolding program
register_computed = (refl, refl)

-- A blocking send into a full channel waits until the context is done.
blocking_computed : (send_blocking false false full "a1" hi ≡ waits) × (count_user_clients busy ≡ 3)
unfolding program
blocking_computed = (refl, refl)
