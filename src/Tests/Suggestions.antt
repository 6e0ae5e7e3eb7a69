-- ===== src/Tests/Suggestions.antt =====
-- Suggestions, the retry demonstration and the boards of guests on concrete inputs.
use cali_go_stack.Base.{
  ℕ, ◌≡◌, refl, ap, String, false, Option, none, some, List, [], ◌∷◌, codes, lookup, insert,
  occurs-Without,
}
use cali_go_stack.Json.{Codec, null, text, object, end, member, field}
use cali_go_stack.Queue.Job.{Job, job_of, job_json}
use cali_go_stack.Queue.Hub.{sends, run}
use cali_go_stack.Queue.Registry.{
  Work, HandlerRegistry, decode_job, handler_of, new_handler_registry, register,
}
use cali_go_stack.Queue.Worker.{RetryDo, RetryLaws, default_retry_config, process_message}
use cali_go_stack.Queue.Worker.Loop.{retry_loop, retry_loop-laws}
use cali_go_stack.Llm.Reply.{Text, parse_string_array, newline, is_space}
use cali_go_stack.Llm.Reply.Fence.{fenced, parse_string_array-fenced}
use cali_go_stack.Llm.Fake.{
  FakeServer, FakeReply, single, chunked, forced, unauthorized, bad_request, handle,
}
use cali_go_stack.Llm.Client.{Client, Sdk, Outcome, answered, refused, new_simulated}
use cali_go_stack.Handlers.Suggest.{Model, Clients, handle_suggest_job, partial_of}
use cali_go_stack.Handlers.Suggest.Simulated.{Served, request, api_error, simulated_recovers}
use cali_go_stack.Handlers.RetryDemo.{demo_job, register_handlers}
use cali_go_stack.Handlers.RetryDemo.Frames.{demo_hub, demo_seen}
use cali_go_stack.Tests.Hubs.{busy}

-- One item, whatever the text.
abbrev one_item : Text → Option (List Text)
one_item array = some (codes "a" ∷ [])

parse_string_array-fenced_example :
    parse_string_array one_item (fenced (codes "json") (codes "[\"a\"]"))
    ≡ parse_string_array one_item (codes "[\"a\"]")
unfolding is_space
parse_string_array-fenced_example =
    parse_string_array-fenced (codes "json") (codes "\"a\"]")
      (occurs-Without newline (codes "json") refl) refl one_item

abbrev failed_with : ℕ → String
failed_with status = "status"

-- What goai makes of an answer.
abbrev outcome_of : FakeReply × FakeServer → Outcome Text × FakeServer
outcome_of (single t, s) = (answered t, s)
outcome_of (forced status, s) = (refused (api_error failed_with status), s)
outcome_of (unauthorized, s) = (refused (api_error failed_with 401), s)
outcome_of (bad_request, s) = (refused (api_error failed_with 400), s)
outcome_of (chunked ts, s) = (answered [], s)

abbrev goai : Sdk FakeServer
goai = record {
  generate_text = λ c prompt s. outcome_of (handle s (request c));
  stream_text = λ c prompt s. (answered ([], none), s);
}

goai-Served : (c : Client) → Served goai c failed_with
goai-Served c = record {
  content = λ prompt t s s' e. ap outcome_of e;
  status = λ prompt code s s' e. ap outcome_of e;
}

abbrev three_tasks : Model FakeServer
three_tasks = record {
  sdk = goai;
  decode = λ array. some tasks_text;
  decode_error = λ v. "";
  quote = λ t. t;
  text_of = λ t. "task";
  order = λ s. [];
}
  where
    tasks_text : List Text
    tasks_text =
        codes "Review the pull request"
        ∷ codes "Write the meeting notes"
        ∷ codes "Ping the on-call engineer"
        ∷ []

abbrev typed_job : Job
typed_job = record {
  kind = "suggest_simulated";
  client_id = "a1";
  payload = some (object (member "partial" (text "Buy") end));
}

abbrev job_codec : Job → Codec
job_codec j = record {
  marshal = λ v. 1 ∷ [];
  unmarshal = λ bytes. some (job_json j);
  text_of = λ v. "";
}

abbrev loops : (S : Type 0) → RetryDo S
loops S = retry_loop

loops-laws : (S : Type 0) → RetryLaws (loops S)
loops-laws S = retry_loop-laws

abbrev url : Text
url = codes "http://127.0.0.1:1"

abbrev clients : Clients
clients = record { llm = none; simulated = some ((new_simulated url).0) }

abbrev suggesting : HandlerRegistry FakeServer
suggesting = record {
  handlers = [];
  not_found_handler = handle_suggest_job (job_codec typed_job) loops three_tasks clients;
}

-- The job meets the server that has answered one call.
simulated_recovers_example :
    process_message
      (job_codec typed_job)
      retry_loop
      default_retry_config
      suggesting
      (1 ∷ [])
      (record { hub = busy; rest = record ((new_simulated url).1) { call_count = 1 } })
    ≡ record {
      hub = run busy (sends "a1" (1 ∷ []) ∷ sends "a1" (1 ∷ []) ∷ []);
      rest = record ((new_simulated url).1) { call_count = 2 };
    }
unfolding lookup decode_job job_of job_json field handler_of partial_of
simulated_recovers_example =
    (simulated_recovers (job_codec typed_job) loops loops-laws three_tasks url failed_with
      (goai-Served ((new_simulated url).0)) clients typed_job "Buy" refl refl refl refl refl refl
      suggesting (1 ∷ []) busy 0 refl refl).1

-- A client that answers with an array in prose.
abbrev talking : Sdk ℕ
talking = record {
  generate_text = λ c prompt a. (answered (codes "Sure: [\"a\"]"), a);
  stream_text = λ c prompt a. (answered ([], none), a);
}

abbrev keyed : Client
keyed = record {
  api_key = codes "k";
  base_url = [];
  model_id = [];
  retry = record { attempts = 1; delay = 0; max_delay = 0 };
  simulated = false;
}

abbrev idle : Work ℕ
idle = record { hub = busy; rest = 0 }

abbrev no_model : Model ℕ
no_model = record {
  sdk = talking;
  decode = one_item;
  decode_error = λ v. "";
  quote = λ t. t;
  text_of = λ t. "";
  order = λ a. [];
}

abbrev no_clients : Clients
no_clients = record { llm = none; simulated = none }

abbrev registry : HandlerRegistry ℕ
registry =
    elim (register_handlers (job_codec demo_job) loops no_model no_clients
      (new_handler_registry (λ t. t))) [ none ↦ new_handler_registry (λ t. t) | some r ↦ r ]

demo_seen_example :
    process_message (job_codec demo_job) retry_loop default_retry_config registry (1 ∷ []) idle
    ≡ record { hub = demo_hub (job_codec demo_job) busy; rest = 0 }
unfolding register_handlers register new_handler_registry lookup insert decode_job job_of job_json
    field
demo_seen_example =
    demo_seen (job_codec demo_job) loops loops-laws no_model no_clients (λ t. t) registry (1 ∷ [])
      (some null) idle refl refl
