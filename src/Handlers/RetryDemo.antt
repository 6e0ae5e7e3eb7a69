-- ===== src/Handlers/RetryDemo.antt =====
-- features/todo/handlers/todo.go: the demonstration of the queue and its retries, and the registration of
-- the job handlers. retry-go is the loop of Queue/Worker; its default is to retry every error here.
pub mod Frames
use cali_go_stack.Base.{
  ℕ, suc, ◌+◌, String, Bool, true, Option, none, some, List, [], ◌∷◌, ◌>>=◌, concat, decimal, ltb,
  if◌then◌else◌,
}
use cali_go_stack.Json.{Json, text, number, object, end, member, null, Codec}
use cali_go_stack.Queue.Chan.{Bytes}
use cali_go_stack.Queue.Hub.{Hub, broadcast}
use cali_go_stack.Queue.Job.{Job, job_json}
use cali_go_stack.Queue.Registry.{Failure, Work, Handler, HandlerRegistry, register}
use cali_go_stack.Queue.Worker.{RetryDo, err_msg, status_of}
use cali_go_stack.Handlers.Output.{Signals}
use cali_go_stack.Handlers.Suggest.{Model, Clients, handle_suggest_job}

abbrev pub demo_job : Job
demo_job = record { kind = "retry_demo"; client_id = ""; payload = none }

-- handleEnqueueRetryDemo: the signals that are merged, or `none` for the error answer.
unfoldable pub handle_enqueue_retry_demo {ℓ} :
    {Q : Type ℓ} → Codec → (Bytes → Q → Option Q) → Q → Option Signals × Q
handle_enqueue_retry_demo codec enqueue q = elim (enqueue (codec.marshal (job_json demo_job)) q) [
  | none ↦ (none, q)
  | some q' ↦ (some (("lastRetry", text "queued retry-demo job") ∷ []), q')
]

abbrev pub max_attempts : ℕ
max_attempts = 3

-- broadcastRetryFeedback
unfoldable pub demo_frame : (attempt : ℕ) → Option Failure → Json
demo_frame attempt e = job_json (record {
  kind = "retry";
  client_id = "";
  payload = some (
      object (
        member "attempt" (number attempt) (
          member "error" (text (err_msg e))
            (member "operation" (text "retry-demo") (member "status" (text (status_of e)) end)))));
})

-- toastJob
unfoldable pub toast_job : (message kind : String) → Json
toast_job message kind = job_json (record {
  kind = "toast";
  client_id = "";
  payload = some (object (member "message" (text message) (member "toastType" (text kind) end)));
})

-- The operation fails on all attempts but the last.
unfoldable pub demo_error : (attempt : ℕ) → Option Failure
demo_error attempt =
    if ltb attempt max_attempts
    then some (record {
      message = concat ("simulated transient failure on attempt " ∷ decimal attempt ∷ []);
      status = none;
    })
    else none

module _ (codec : Codec) {A : Type 0} where
  abbrev pub tell_all : Json → Work A → Work A
  tell_all frame w = record w { hub = broadcast w.hub (codec.marshal frame) }

  -- One call of the function that is retried.
  unfoldable pub demo_attempt : ℕ × Work A → Option Failure × (ℕ × Work A)
  demo_attempt (n, w) =
      (demo_error (suc n), (suc n, tell_all (demo_frame (suc n) (demo_error (suc n))) w))

  abbrev pub demo_done : Option Failure × (ℕ × Work A) → Option Failure × Work A
  demo_done (some e, (n, w)) = (some e, tell_all (toast_job "Queue + retry demo failed" "error") w)
  demo_done (none, (n, w)) =
      (none, tell_all (toast_job "Queue + retry OK — 3 attempts" "success") w)

  unfoldable pub handle_retry_demo_job : RetryDo (ℕ × Work A) → Handler A
  handle_retry_demo_job do_ job w = demo_done (do_ max_attempts (λ e. true) demo_attempt (0, w))

  -- RegisterHandlers; a type that is registered already panics.
  unfoldable pub register_handlers :
      (do_ : (S : Type 0) → RetryDo S)
      → Model A
      → Clients
      → HandlerRegistry A
      → Option (HandlerRegistry A)
  register_handlers do_ m cs reg = do
    r1 ← register "retry_demo" (handle_retry_demo_job (do_ (ℕ × Work A))) reg
    r2 ← register "suggest" (handle_suggest_job codec do_ m cs) r1
    register "suggest_simulated" (handle_suggest_job codec do_ m cs) r2
