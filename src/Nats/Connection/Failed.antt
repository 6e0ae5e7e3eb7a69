-- ===== src/Nats/Connection/Failed.antt =====
-- A start that fails half-way.
use cali_go_stack.Base.{ℕ, ◌≡◌, Bool, true, ◌||◌, ◌&&◌, none, some, arith, if◌then◌else◌}
use cali_go_stack.Nats.Connection.{
  Singletons, Answers, wait_for_jetstream, start_nats, start_embedded, connect_existing,
}

module _ (dagnats_enabled : Bool) (a : Answers) (s : Singletons) (nc js ns : ℕ)
    (connected : a.connect ≡ some nc) (given : a.context ≡ some js)
    (started : a.new_server ≡ some ns) where
  -- With NATS enabled, where the server starts, the connection is made and the context is there: the
  -- server uses the context if JetStream serves in time, and the server that is its own is ready, and
  -- else none, with the broadcaster in memory; but on every one of these branches the process keeps the
  -- connection and the context.
  pub half_started :
      let up = (dagnats_enabled || a.ready) && wait_for_jetstream a in
      let (used_js, s') = start_nats true dagnats_enabled a s in
      (used_js ≡ (if up then some js else none))
      × (s'.connection ≡ some nc)
      × (s'.jetstream ≡ some js)
  unfolding start_nats start_embedded connect_existing wait_for_jetstream
  half_started = ground (arith, connected, given, started)
