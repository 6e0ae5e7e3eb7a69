-- ===== src/Llm/Client.antt =====
-- internal/llm/goai.go: the client. goai (third-party) is a parameter, and so are "%q" and the order that
-- math/rand picks. No hub is handed to the retries, and no client's name: the hub of `Work` takes no
-- part in them.
pub mod Items
use cali_go_stack.Base.{
  ℕ, zero, suc, ◌*◌, String, Bool, true, false, Option, none, some, List, [], ◌∷◌, ◌++◌, map, take,
  codes, is_nil, concat, if◌then◌else◌,
}
use cali_go_stack.Json.{Codec}
use cali_go_stack.Queue.Registry.{Failure, Work}
use cali_go_stack.Queue.Worker.{RetryConfig, RetryDo, do_with_retry}
use cali_go_stack.Llm.Reply.{Text, Decoder, parse_string_array, split_lines}
use cali_go_stack.Llm.Fake.{FakeServer, new_server, with_status_sequence, with_response}
use cali_go_stack.Secrets.{Env, getenv}

abbrev pub default_base_url : Text
default_base_url = codes "https://api.openai.com/v1"

abbrev pub default_model : Text
default_model = codes "gpt-4o-mini"

-- `simulated` is whether there is a server of the client's own.
pub record Client : Type 0 where
  pub api_key : Text
  pub base_url : Text
  pub model_id : Text
  pub retry : RetryConfig
  pub simulated : Bool

abbrev pub ms : ℕ
ms = 1000000

abbrev pub or_default : Text → Text → Text
or_default default t = if is_nil t then default else t

unfoldable pub new_client : Env → (api_key : Text) → Client
new_client env api_key = record {
  api_key = api_key;
  base_url = or_default default_base_url (getenv env (codes "GOAI_BASE_URL"));
  model_id = or_default default_model (getenv env (codes "GOAI_MODEL"));
  retry = record { attempts = 3; delay = 500 * ms; max_delay = 5000 * ms };
  simulated = false;
}

abbrev pub simulated_response : Text
simulated_response =
    codes "[\"Review the pull request\",\"Write the meeting notes\",\"Ping the on-call engineer\"]"

-- NewSimulated: the client, and the server that it starts at `url`.
unfoldable pub new_simulated : (url : Text) → Client × FakeServer
new_simulated url = (
  record {
    api_key = codes "simulated";
    base_url = url;
    model_id = codes "simulated-model";
    retry = record { attempts = 1; delay = 100 * ms; max_delay = 1000 * ms };
    simulated = true;
  },
  new_server (with_status_sequence (500 ∷ 200 ∷ []) ∷ with_response simulated_response ∷ []),
)

abbrev pub configured : Client → Bool
configured c = if is_nil c.api_key then false else true

abbrev pub err_no_api_key : Failure
err_no_api_key = record { message = "llm: GOAI_API_KEY is not configured"; status = none }

unfoldable pub must_configured : Client → Option Failure
must_configured c =
    if configured c
    then none
    else some (record {
      message = concat (
          err_no_api_key.message ∷ ". Set GOAI_API_KEY in your environment or in the "
          ∷ "age-encrypted secrets file (run bin/init-secrets)" ∷ []);
      status = none;
    })

-- What a call answers.
pub data Outcome (T : Type 0) : Type 0 where
  answered : T → Outcome T
  refused : Failure → Outcome T

-- goai without retries of its own: GenerateText, and StreamText with the tokens that arrive and the
-- error that is found behind them.
pub record Sdk (A : Type 0) : Type 0 where
  pub generate_text : Client → (prompt : Text) → A → Outcome Text × A
  pub stream_text : Client → (prompt : Text) → A → Outcome (List Text × Option Failure) × A

-- fmt.Errorf with "%w": the chain keeps the status.
abbrev pub wrapped : String → Failure → Failure
wrapped before e = record e { message = concat (before ∷ e.message ∷ []) }

abbrev pub safe_seed_tasks : List Text
safe_seed_tasks = map codes (
    "Read the project README" ∷ "Write the meeting notes" ∷ "Review the pull request"
    ∷ "Plan the sprint backlog" ∷ "Drink a glass of water" ∷ "Stretch for five minutes"
    ∷ "Reply to the customer email" ∷ "Update the changelog" ∷ "Refactor the helper function"
    ∷ "Sketch the architecture diagram" ∷ "Test the login flow" ∷ "Backup the database"
    ∷ "Organize the download folder" ∷ "Schedule the standup" ∷ "Learn one new keyboard shortcut"
    ∷ "Clean up the todo list" ∷ "Prepare the demo script" ∷ "Verify the deployment"
    ∷ "Write a unit test" ∷ "Take a short walk" ∷ "Brainstorm feature names"
    ∷ "Summarize the article" ∷ "Fix the failing CI job" ∷ "Message the on-call engineer" ∷ [])

-- The entry at a place; rand.Perm gives no place behind the end.
unfoldable pub entry_at : List Text → ℕ → Text
entry_at [] n = []
entry_at (t ∷ ts) zero = t
entry_at (t ∷ ts) (suc n) = entry_at ts n

-- `order` is what rand.Perm gives.
unfoldable pub random_tasks : (order : List ℕ) → List Text
random_tasks order = map (entry_at safe_seed_tasks) (take 3 order)

unfoldable pub prompt_for : (quoted : Text) → Text
prompt_for quoted =
    codes "You are helping a user write a todo list item. The user has typed "
    ++ (quoted
        ++ codes
            " so far. Suggest exactly 3 short, distinct, actionable completions (each under 60 characters). Return them as a JSON array of strings, no other text, no markdown fences.")

abbrev pub or_lines : Text → Option (List Text) → List Text
or_lines text (some items) = items
or_lines text none = split_lines text

module _ (codec : Codec) (do_ : (S : Type 0) → RetryDo S) {A : Type 0} (sdk : Sdk A) where
  -- The function that Chat retries; the last text that came is kept beside the world.
  abbrev pub generated : Work (Text × A) → Outcome Text × A → Option Failure × Work (Text × A)
  generated w (answered t, a) = (none, record w { rest = (t, a) })
  generated w (refused e, a) =
      (some (wrapped "llm: generate: " e), record w { rest = (w.rest.0, a) })

  abbrev pub generating : Client → Text → Work (Text × A) → Option Failure × Work (Text × A)
  generating c prompt w = generated w (sdk.generate_text c prompt w.rest.1)

  abbrev pub chatted : Option Failure × (ℕ × Work (Text × A)) → Outcome Text × Work A
  chatted (some e, (n, w)) = (refused e, record { hub = w.hub; rest = w.rest.1 })
  chatted (none, (n, w)) = (answered w.rest.0, record { hub = w.hub; rest = w.rest.1 })

  unfoldable pub chat : Client → (prompt : Text) → Work A → Outcome Text × Work A
  chat c prompt w =
      if is_nil c.api_key
      then (refused err_no_api_key, w)
      else chatted (
          do_with_retry codec (do_ (ℕ × Work (Text × A))) c.retry "" "llm.chat"
            (generating c prompt) (record { hub = w.hub; rest = ([], w.rest) }))

  abbrev pub suggested : Decoder → Outcome Text × Work A → Outcome (List Text) × Work A
  suggested decode (answered text, w) =
      (answered (or_lines text (parse_string_array decode text)), w)
  suggested decode (refused e, w) = (refused e, w)

  unfoldable pub chat_suggest :
      Decoder
      → (quote : Text → Text) → (order : List ℕ) → Client
      → (partial : Text) → Work A
      → Outcome (List Text) × Work A
  chat_suggest decode quote order c partial w =
      if is_nil partial
      then (answered (random_tasks order), w)
      else suggested decode (chat c (prompt_for (quote partial)) w)

  -- The tokens go to the callback one by one, up to its first error.
  abbrev after_token : (A → Option Failure × A) → Option Failure × A → Option Failure × A
  after_token next (some e, a) = (some e, a)
  after_token next (none, a) = next a

  unfoldable pub tokens_to :
      (Text → A → Option Failure × A) → List Text → (last : Option Failure) → A → Option Failure × A
  tokens_to fn [] none a = (none, a)
  tokens_to fn [] (some e) a = (some (wrapped "llm: stream: " e), a)
  tokens_to fn (t ∷ ts) last a = after_token (tokens_to fn ts last) (fn t a)

  abbrev in_world : Work A → Option Failure × A → Option Failure × Work A
  in_world w (e, a) = (e, record w { rest = a })

  abbrev streamed :
      (Text → A → Option Failure × A)
      → Outcome (List Text × Option Failure) × A
      → Option Failure × A
  streamed fn (refused e, a) = (some (wrapped "llm: stream: " e), a)
  streamed fn (answered (ts, last), a) = tokens_to fn ts last a

  -- ChatStream, with DoSilent.
  unfoldable pub chat_stream :
      (Text → A → Option Failure × A) → Client → (prompt : Text) → Work A → Option Failure × Work A
  chat_stream fn c prompt w =
      if is_nil c.api_key
      then (some err_no_api_key, w)
      else let r =
          do_with_retry codec (do_ (ℕ × Work A)) c.retry "" ""
            (λ v. in_world v (streamed fn (sdk.stream_text c prompt v.rest))) w in
        (r.0, r.1.1)
