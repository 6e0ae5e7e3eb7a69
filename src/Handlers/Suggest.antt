-- ===== src/Handlers/Suggest.antt =====
-- features/todo/handlers/llm_suggest.go and errMsg, mustJSON of todo.go: suggestions, as jobs of the
-- queue. A list that is nil is not told from an empty one. `send` is goqite's Send, which may fail.
pub mod Simulated
use cali_go_stack.Base.{
  ℕ, String, Bool, true, false, Option, none, some, List, [], ◌∷◌, ◌==◌, ◌>>=◌, map, codes, concat,
  if◌then◌else◌,
}
use cali_go_stack.Json.{
  Json, text, texts, bool, object, end, member, Codec, text_field, Members, members,
}
use cali_go_stack.Queue.Chan.{Bytes}
use cali_go_stack.Queue.Hub.{Hub, send, broadcast}
use cali_go_stack.Queue.Job.{Job, job_json}
use cali_go_stack.Queue.Registry.{Failure, Work}
use cali_go_stack.Queue.Worker.{RetryDo}
use cali_go_stack.Llm.Reply.{Text, Decoder}
use cali_go_stack.Llm.Client.{Client, Sdk, Outcome, answered, refused, configured, chat_suggest}
use cali_go_stack.Handlers.Output.{Signals}

-- What the handlers call of other code: goai, json.Unmarshal into a list and its error's text, "%q", the
-- text of code points, and the order that math/rand picks.
pub record Model (A : Type 0) : Type 0 where
  pub sdk : Sdk A
  pub decode : Decoder
  pub decode_error : Option Json → String
  pub quote : Text → Text
  pub text_of : Text → String
  pub order : A → List ℕ

-- The two clients of the handler; `none` is nil.
pub record Clients : Type 0 where
  pub llm : Option Client
  pub simulated : Option Client

abbrev pub live : Option Client → Bool
live none = false
live (some c) = configured c

-- llmEnabled and simulatedLLMEnabled
abbrev pub llm_enabled : Clients → Bool
llm_enabled cs = live cs.llm

abbrev pub simulated_llm_enabled : Clients → Bool
simulated_llm_enabled cs = live cs.simulated

pub data SuggestReply : Type 0 where
  unavailable : (message : String) → SuggestReply
  invalid_form : SuggestReply
  enqueue_failed : SuggestReply
  merged : Signals → SuggestReply

abbrev partial_json : String → Json
partial_json partial = object (member "partial" (text partial) end)

module _ {Q : Type 0} (codec : Codec) (enqueue : Bytes → Q → Option Q) where
  -- enqueueSuggest
  unfoldable pub enqueue_suggest : (kind partial client_id : String) → Q → SuggestReply × Q
  enqueue_suggest kind partial client_id q =
      let job : Job = record {
        kind = kind;
        client_id = client_id;
        payload = some (partial_json partial);
      } in
      elim (enqueue (codec.marshal (job_json job)) q) [
        | none ↦ (enqueue_failed, q)
        | some q' ↦ (
          merged
              (("aiPending", bool true) ∷ ("suggestErr", text "") ∷ ("suggestions", texts []) ∷ []),
          q',
        )
      ]

  unfoldable pub handle_suggest : Clients → (partial client_id : String) → Q → SuggestReply × Q
  handle_suggest cs partial client_id q =
      if llm_enabled cs
      then enqueue_suggest "suggest" partial client_id q
      else if simulated_llm_enabled cs
      then enqueue_suggest "suggest_simulated" partial client_id q
      else (unavailable "LLM not configured: set GOAI_API_KEY or SIMULATE_LLM=true", q)

  unfoldable pub handle_suggest_simulated :
      Clients → (form_ok : Bool) → (partial client_id : String) → Q → SuggestReply × Q
  handle_suggest_simulated cs form_ok partial client_id q =
      if simulated_llm_enabled cs
      then (if form_ok
          then enqueue_suggest "suggest_simulated"
              (if partial == "" then "Plan my week" else partial) client_id q
          else (invalid_form, q))
      else (unavailable "simulated LLM not enabled: set SIMULATE_LLM=true", q)

unfoldable pub suggest_result : (suggestions : List String) → (failed : String) → Json
suggest_result suggestions failed = job_json (record {
  kind = "suggest_result";
  client_id = "";
  payload = some (
      object (
        member "suggestErr" (text failed)
          (member "suggestPending" (bool false) (member "suggestions" (texts suggestions) end))));
})

-- To the job's client, or to all.
unfoldable pub push_result : Codec → (client_id : String) → Json → Hub → Hub
push_result codec client_id frame h =
    if client_id == ""
    then broadcast h (codec.marshal frame)
    else send h client_id (codec.marshal frame)

-- json.Unmarshal of the payload.
unfoldable pub partial_of : Option Json → Option String
partial_of none = none
partial_of (some v) = do ms ← members v; text_field "partial" ms

module _ (codec : Codec) (do_ : (S : Type 0) → RetryDo S) {A : Type 0} (m : Model A) where
  abbrev pub pushed : Job → Json → Option Failure → Work A → Option Failure × Work A
  pushed job frame e w = (e, record w { hub = push_result codec job.client_id frame w.hub })

  abbrev pub not_configured : Job → Work A → Option Failure × Work A
  not_configured job = pushed job (suggest_result [] "AI suggest failed: LLM not configured") (
      some (record {
        message = concat ("llm client not configured for job " ∷ job.kind ∷ []);
        status = none;
      }))

  -- The suggestions, or the error, which the worker may retry.
  abbrev pub suggested : Job → Outcome (List Text) × Work A → Option Failure × Work A
  suggested job (answered items, w) = pushed job (suggest_result (map m.text_of items) "") none w
  suggested job (refused e, w) =
      pushed job (suggest_result [] (concat ("AI suggest failed: " ∷ e.message ∷ []))) (some e) w

  abbrev pub suggest_with :
      Option Client → Job → (partial : String) → Work A → Option Failure × Work A
  suggest_with none job partial w = not_configured job w
  suggest_with (some c) job partial w =
      if configured c
      then suggested job
          (chat_suggest codec do_ m.sdk m.decode m.quote (m.order w.rest) c (codes partial) w)
      else not_configured job w

  abbrev pub client_for : Clients → (kind : String) → Option Client
  client_for cs kind = if kind == "suggest_simulated" then cs.simulated else cs.llm

  abbrev pub suggest_partial : Clients → Job → Option String → Work A → Option Failure × Work A
  suggest_partial cs job none w = (
    some (record {
      message = concat ("decode suggest payload: " ∷ m.decode_error job.payload ∷ []);
      status = none;
    }),
    w,
  )
  suggest_partial cs job (some partial) w = suggest_with (client_for cs job.kind) job partial w

  unfoldable pub handle_suggest_job : Clients → Job → Work A → Option Failure × Work A
  handle_suggest_job cs job w = suggest_partial cs job (partial_of job.payload) w
