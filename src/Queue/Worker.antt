-- ===== src/Queue/Worker.antt =====
-- internal/queue/retry.go and workers.go: what a worker does with a message. retry-go is third-party
-- code: a loop over a state with the laws that its documentation gives; waiting takes no part in it.
-- The context of a message is never done. JitterFactor sets an option of retry-go that a DelayType of
-- one's own does not read.
pub mod Attempts
pub mod Loop
use cali_go_stack.Base.{
  ℕ, suc, zero, ◌+◌, ◌-◌, ◌*◌, ◌^◌, ◌≡◌, String, Bool, true, false, not, ◌&&◌, ◌||◌, Option, none,
  some, List, [], ◌∷◌, ◌++◌, ◌==◌, leb, ltb, nat_eq, if◌then◌else◌,
}
use cali_go_stack.Json.{Json, text, number, object, end, member, Codec}
use cali_go_stack.Queue.Chan.{Bytes}
use cali_go_stack.Queue.Job.{Job, job_json}
use cali_go_stack.Queue.Hub.{Hub, send}
use cali_go_stack.Queue.Registry.{Failure, Work, Handler, HandlerRegistry, handler_of, decode_job}

-- Durations are nanoseconds.
pub record RetryConfig : Type 0 where
  pub attempts : ℕ
  pub delay : ℕ
  pub max_delay : ℕ

abbrev pub default_retry_config : RetryConfig
default_retry_config = record { attempts = 3; delay = 2000000000; max_delay = 30000000000 }

-- The wait before the retry `n`: 1 << (n-1) is 0 where n is 0, since n-1 wraps around.
unfoldable pub delay_before : RetryConfig → ℕ → ℕ
delay_before r zero = 0
delay_before r (suc n) = let d = r.delay * 2 ^ n in if ltb r.max_delay d then r.max_delay else d

unfoldable pub is_auth_error : Failure → Bool
is_auth_error e = elim e.status [
  | none ↦ false
  | some code ↦
      if nat_eq code 401 || nat_eq code 403
      then true
      else if nat_eq code 429
      then false
      else leb 400 code && ltb code 500
]

abbrev pub err_msg : Option Failure → String
err_msg none = ""
err_msg (some e) = e.message

abbrev pub status_of : Option Failure → String
status_of none = "success"
status_of (some e) = "attempt"

-- The frame that tells the client of an attempt.
unfoldable pub retry_frame : (client operation : String) (attempt : ℕ) → Option Failure → Json
retry_frame client operation attempt e = job_json (record {
  kind = "retry";
  client_id = client;
  payload = some (
      object (
        member "attempt" (number attempt) (
          member "error" (text (err_msg e))
            (member "operation" (text operation) (member "status" (text (status_of e)) end)))));
})

-- retry.Do: attempts, RetryIf, the function, and the state that it changes.
abbrev pub RetryDo : Type 0 → Type 0
RetryDo S = ℕ → (Failure → Bool) → (S → Option Failure × S) → S → Option Failure × S

-- The loop stops at the first success, at an error that is not to be retried, and when the attempts
-- are used up; it returns the last error.
pub record RetryLaws {S : Type 0} (do_ : RetryDo S) : Type 0 where
  pub succeeds :
      (n : ℕ) (retry_if : Failure → Bool) (fn : S → Option Failure × S) (s s' : S)
      → fn s ≡ (none, s')
      → do_ (suc n) retry_if fn s ≡ (none, s')
  pub refused :
      (n : ℕ) (retry_if : Failure → Bool) (fn : S → Option Failure × S) (s s' : S) (e : Failure)
      → fn s ≡ (some e, s')
      → retry_if e ≡ false
      → do_ (suc n) retry_if fn s ≡ (some e, s')
  pub exhausted :
      (retry_if : Failure → Bool) (fn : S → Option Failure × S) (s s' : S) (e : Failure)
      → fn s ≡ (some e, s')
      → do_ 1 retry_if fn s ≡ (some e, s')
  pub again :
      (n : ℕ) (retry_if : Failure → Bool) (fn : S → Option Failure × S) (s s' : S) (e : Failure)
      → fn s ≡ (some e, s')
      → retry_if e ≡ true
      → do_ (suc (suc n)) retry_if fn s ≡ do_ (suc n) retry_if fn s'

module _ {A : Type 0} (c : Codec) (do_ : RetryDo (ℕ × Work A)) (config : RetryConfig) where
  -- The attempt's number, and the feedback to the client, if there is one.
  abbrev pub told :
      (client operation : String) (attempt : ℕ)
      → Option Failure × Work A
      → Option Failure × (ℕ × Work A)
  told client operation attempt (e, w) = (
    e,
    (
      attempt,
      if client == "" then w else record w {
        hub = send w.hub client (c.marshal (retry_frame client operation attempt e));
      },
    ),
  )

  -- One call of the function that Do hands to retry.Do.
  unfoldable pub attempt :
      (client operation : String)
      → (Work A → Option Failure × Work A)
      → ℕ × Work A
      → Option Failure × (ℕ × Work A)
  attempt client operation fn (n, w) = told client operation (suc n) (fn w)

  -- RetryConfig.Do; the number of attempts is kept beside the world.
  unfoldable pub do_with_retry :
      (client operation : String)
      → (Work A → Option Failure × Work A)
      → Work A
      → Option Failure × (ℕ × Work A)
  do_with_retry client operation fn w =
      do_ config.attempts (λ e. not (is_auth_error e)) (attempt client operation fn) (0, w)

  abbrev processed : HandlerRegistry A → Option Job → Work A → Work A
  processed reg none w = w
  processed reg (some job) w =
      (do_with_retry job.client_id job.kind (handler_of job.kind reg job) w).1.1

  -- A body that is no job is dropped.
  unfoldable pub process_message : HandlerRegistry A → Bytes → Work A → Work A
  process_message reg body w = processed reg (decode_job c body) w

  -- What wakes a worker that is not stopped: a message, no message, or an error of the queue. The
  -- queue is the bodies that it holds; a message is deleted after it is processed.
  pub data Poll : Type 0 where
    message : Poll
    empty : Poll
    receive_error : Poll
    stopped : Poll

  abbrev after_message : HandlerRegistry A → List Bytes → Work A → List Bytes × Work A
  after_message reg [] w = ([], w)
  after_message reg (body ∷ rest) w = (rest, process_message reg body w)

  unfoldable pub worker : HandlerRegistry A → List Poll → List Bytes × Work A → List Bytes × Work A
  worker reg [] q = q
  worker reg (message ∷ ps) (bodies, w) = worker reg ps (after_message reg bodies w)
  worker reg (empty ∷ ps) q = worker reg ps q
  worker reg (receive_error ∷ ps) q = worker reg ps q
  worker reg (stopped ∷ ps) q = q
