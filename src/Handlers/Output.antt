-- ===== src/Handlers/Output.antt =====
-- features/todo/handlers/todo_sse.go: the events that the stream writes, and the signals and toasts
-- of retries, of the diagnostics panel and of the onboarding. That the writes themselves succeed is
-- taken for granted; the skin and the rendering are left out.
use cali_go_stack.Base.{
  ℕ, String, Bool, true, false, not, ◌&&◌, ◌||◌, List, [], ◌∷◌, ◌++◌, ◌==◌, concat, decimal,
  if◌then◌else◌,
}
use cali_go_stack.Json.{Json, text, number, bool}
use cali_go_stack.Store.Entity.{Todo}

abbrev pub Signals : Type 0
Signals = List (String × Json)

-- One event that the handler writes to the client.
pub data Output : Type 0 where
  merge : Signals → Output
  merge_todos : List Todo → Signals → Output
  toast : (message kind : String) → Output
  remove : (selector : String) → Output
  todo_list : List Todo → Output
  suggestion_list : List String → Output
  heartbeat : Output

-- What a dispatch wrote, and whether it returned an error.
pub record Sent : Type 0 where
  pub out : List Output
  pub failed : Bool

abbrev pub sent : List Output → Sent
sent out = record { out = out; failed = false }

abbrev pub failure : Sent
failure = record { out = []; failed = true }

-- emitToast
abbrev pub emit_toast : String → String → List Output
emit_toast message kind = toast message kind ∷ []

-- `raw` is the payload's text.
pub record RetryEvent : Type 0 where
  pub operation : String
  pub attempt : ℕ
  pub status : String
  pub error : String
  pub raw : String

abbrev pub retry_status_success : String
retry_status_success = "success"

abbrev pub is_suggest : RetryEvent → Bool
is_suggest p = p.operation == "suggest" || p.operation == "suggest_simulated"

abbrev pub succeeded : RetryEvent → Bool
succeeded p = p.status == retry_status_success

unfoldable pub retry_signal_fields : RetryEvent → Signals
retry_signal_fields p =
    ("lastRetry", text p.raw)
    ∷ ("lastRetryOperation", text p.operation)
    ∷ ("lastRetryStatus", text p.status)
    ∷ ("lastRetryAttempt", number p.attempt)
    ∷ (if is_suggest p
        then ("aiStep", number (if succeeded p then 3 else 2))
          ∷ ("aiPending", bool (not (succeeded p)))
          ∷ []
        else ("demoStep", number (if succeeded p then 3 else 2)) ∷ [])

abbrev verb : RetryEvent → String
verb p = if p.operation == "suggest_simulated" then "suggest (simulated)" else p.operation

-- retryToastMessage: the message and its kind.
unfoldable pub retry_toast_message : RetryEvent → String × String
retry_toast_message p =
    if succeeded p then (concat (verb p ∷ ": completed" ∷ []), retry_status_success) else (
      concat (
          verb p
          ∷ ": attempt "
          ∷ decimal p.attempt
          ∷ " failed"
          ∷ (if p.error == "" then "" else concat (" (" ∷ p.error ∷ ")" ∷ []))
          ∷ ", retrying…"
          ∷ []),
      "warning",
    )

unfoldable pub apply_tech_step : (step : String) (done : Bool) (phase : String) → Output
apply_tech_step step done phase = merge (
    ("techStep", text step)
    ∷ ("techDone", bool done)
    ∷ ("techPhase", text phase)
    ∷ (if done then ("suggestPending", bool false) ∷ [] else []))

unfoldable pub apply_onboarding :
    (step total : ℕ) (phase detail : String) (completed : Bool) → Output
apply_onboarding step total phase detail completed = merge (
    ("onboardingActive", bool true)
    ∷ ("onboardingStep", number step)
    ∷ ("onboardingTotal", number total)
    ∷ ("onboardingPhase", text phase)
    ∷ ("onboardingDetail", text detail)
    ∷ ("techStep", text "workflow")
    ∷ (if completed then ("workflowCompleted", bool true) ∷ ("techDone", bool true) ∷ [] else []))

abbrev pub retried : RetryEvent → List Output
retried p =
    merge (retry_signal_fields p)
      ∷ (if succeeded p && not (is_suggest p)
          then apply_tech_step "retry-demo" true "" ∷ []
          else [])
    ++ emit_toast (retry_toast_message p).0 (retry_toast_message p).1
