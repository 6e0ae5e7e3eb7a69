-- ===== src/Nats/Connection.antt =====
-- internal/nats/embedded.go and cmd/web/nats.go: the server, the connection and the JetStream context that
-- the process keeps. They are numbers here, and what the NATS libraries answer is an input.
pub mod Failed
use cali_go_stack.Base.{
  ℕ, Bool, true, false, not, Option, none, some, List, [], ◌∷◌, ◌||◌, if◌then◌else◌,
}

-- NS, NC and JS; `none` is nil.
pub record Singletons : Type 0 where
  pub server : Option ℕ
  pub connection : Option ℕ
  pub jetstream : Option ℕ

abbrev pub no_singletons : Singletons
no_singletons = record { server = none; connection = none; jetstream = none }

-- What the libraries answer on a start: `none` is an error. `account_info` is the answers to the polls
-- of waitForJetStream up to its deadline, the first of which always happens.
pub record Answers : Type 0 where
  pub url_ok : Bool
  pub new_server : Option ℕ
  pub connect : Option ℕ
  pub context : Option ℕ
  pub ready : Bool
  pub first_info : Bool
  pub account_info : List Bool

pub data StartError : Type 0 where
  bad_url : StartError
  server_failed : StartError
  connect_failed : StartError
  context_failed : StartError
  never_ready : StartError
  not_serving : StartError

-- The loop of waitForJetStream; false at the deadline.
unfoldable pub polled : List Bool → Bool
polled [] = false
polled (ok ∷ later) = let rest = polled later in if ok then true else rest

unfoldable pub wait_for_jetstream : Answers → Bool
unfolding polled
wait_for_jetstream a = a.first_info || polled a.account_info

-- The end of each start, once the context is there.
abbrev served : Answers → Singletons → Option StartError × Singletons
served a s = (if wait_for_jetstream a then none else some not_serving, s)

abbrev with_context :
    (ready : Bool) → Answers → Option ℕ → Singletons → Option StartError × Singletons
with_context ready a none s = (some context_failed, s)
with_context ready a (some js) s =
    let s' = record s { jetstream = some js } in
    if ready then served a s' else (some never_ready, s')

abbrev with_connection :
    (ready : Bool) → Answers → Option ℕ → Singletons → Option StartError × Singletons
with_connection ready a none s = (some connect_failed, s)
with_connection ready a (some nc) s =
    with_context ready a a.context (record s { connection = some nc })

abbrev with_server : Answers → Option ℕ → Singletons → Option StartError × Singletons
with_server a none s = (some server_failed, s)
with_server a (some ns) s = with_connection a.ready a a.connect (record s { server = some ns })

unfoldable pub start_embedded : Answers → Singletons → Option StartError × Singletons
unfolding wait_for_jetstream
start_embedded a s = with_server a a.new_server no_singletons

unfoldable pub start_leaf_node : Answers → Singletons → Option StartError × Singletons
unfolding wait_for_jetstream
start_leaf_node a s = if a.url_ok then with_server a a.new_server s else (some bad_url, s)

-- There is no server of one's own to wait for.
unfoldable pub connect_existing : Answers → Singletons → Option StartError × Singletons
unfolding wait_for_jetstream
connect_existing a s = with_connection true a a.connect s

unfoldable pub stop : Singletons → Singletons
stop s = no_singletons

-- ClientURL, where `url_of` is the server's.
unfoldable pub client_url {ℓ} : {U : Type ℓ} → (empty : U) → (ℕ → U) → Singletons → U
client_url empty url_of s = elim s.server [ none ↦ empty | some ns ↦ url_of ns ]

abbrev pub used : Option StartError × Singletons → Option ℕ × Singletons
used (none, s) = (s.jetstream, s)
used (some e, s) = (none, s)

-- startNATS: the context that the server uses, `none` for the broadcaster in memory.
unfoldable pub start_nats :
    (nats_enabled dagnats_enabled : Bool) → Answers → Singletons → Option ℕ × Singletons
start_nats nats_enabled dagnats_enabled a s =
    if not nats_enabled
    then (none, s)
    else if dagnats_enabled
    then used (connect_existing a s)
    else used (start_embedded a s)
