-- ===== src/Queue/Worker/Attempts.antt =====
-- How often a handler is called, and what its client is told: the loop of retry-go written out.
use cali_go_stack.Base.{
  ℕ, suc, zero, ◌<◌, ◌-◌, ◌≡◌, refl, sym, ap, ◌∙◌, subst, inl, inr, String, Bool, true, false, not,
  Option, none, some, arith, ◌==◌, Bool-cases, if◌then◌else◌,
}
use cali_go_stack.Json.{Codec}
use cali_go_stack.Queue.Chan.{Bytes}
use cali_go_stack.Queue.Job.{Job}
use cali_go_stack.Queue.Hub.{send}
use cali_go_stack.Queue.Registry.{Failure, Work, HandlerRegistry, handler_of, decode_job}
use cali_go_stack.Queue.Worker.{
  RetryConfig, RetryDo, RetryLaws, is_auth_error, retry_frame, attempt, told, do_with_retry,
  process_message,
}

module _ {A : Type 0} (c : Codec) (client operation : String)
    (fn : Work A → Option Failure × Work A) where
  -- The world in which the client, if there is one, has been told how the attempt went.
  abbrev pub fed : (number : ℕ) → Option Failure → Work A → Work A
  fed number e w =
      if client == ""
      then w
      else record w { hub = send w.hub client (c.marshal (retry_frame client operation number e)) }

  abbrev pub is_transient : Option Failure → Bool
  is_transient none = false
  is_transient (some e) = not (is_auth_error e)

  -- At most `budget` attempts after the first `done`: the function is called once, the client is told,
  -- and only an error that may pass leads to the next attempt.
  unfoldable pub attempts : (budget done : ℕ) → Work A → Work A
  attempts zero done w = w
  attempts (suc budget) done w =
      let (e, called) = fn w in
      let next = fed (suc done) e called in
      let rest = attempts budget (suc done) next in if is_transient e then rest else next

  module _ (do_ : RetryDo (ℕ × Work A)) (laws : RetryLaws do_) (config : RetryConfig) where
    abbrev once : ℕ × Work A → Option Failure × (ℕ × Work A)
    once = attempt c do_ config client operation fn

    abbrev goes : Failure → Bool
    goes e = not (is_auth_error e)

    once_lem :
        (n : ℕ) (w : Work A) (x : Option Failure × Work A)
        → fn w ≡ x
        → once (n, w) ≡ (x.0, (suc n, fed (suc n) x.0 x.1))
    unfolding attempt
    once_lem n w x called = ap (told c do_ config client operation (suc n)) called

    -- One attempt of the plain loop.
    attempts_step :
        (budget n : ℕ) (w : Work A) (x : Option Failure × Work A)
        → fn w ≡ x
        → attempts (suc budget) n w ≡ (
            if is_transient x.0
            then attempts budget (suc n) (fed (suc n) x.0 x.1)
            else fed (suc n) x.0 x.1)
    unfolding attempts
    attempts_step budget n w x called =
        ap
          (λ (x : Option Failure × Work A).
            if is_transient x.0
            then attempts budget (suc n) (fed (suc n) x.0 x.1)
            else fed (suc n) x.0 x.1)
          called

    -- The step by what the test of the error says.
    attempts_by :
        (budget n : ℕ) (w : Work A) (e : Failure) (w1 : Work A) (b : Bool)
        → fn w ≡ (some e, w1)
        → goes e ≡ b
        → attempts (suc budget) n w ≡ (
            if b
            then attempts budget (suc n) (fed (suc n) (some e) w1)
            else fed (suc n) (some e) w1)
    attempts_by budget n w e w1 b called test =
        attempts_step budget n w (some e, w1) called
        ∙ ap
            (λ (b : Bool).
              if b
              then attempts budget (suc n) (fed (suc n) (some e) w1)
              else fed (suc n) (some e) w1)
            test

    last_attempt :
        (n : ℕ) (w : Work A) (e : Failure) (w1 : Work A)
        → fn w ≡ (some e, w1)
        → attempts 1 n w ≡ fed (suc n) (some e) w1
    unfolding attempts
    last_attempt n w e w1 called = elim (Bool-cases (goes e)) [
      | inl more ↦ attempts_by 0 n w e w1 true called more
      | inr over ↦ attempts_by 0 n w e w1 false called over
    ]

    abbrev world : Option Failure × (ℕ × Work A) → Work A
    world x = x.1.1

    do-attempts :
        (budget n : ℕ) (w : Work A) (x : Option Failure × Work A)
        → fn w ≡ x
        → (do_ (suc budget) goes once (n, w)).1.1 ≡ attempts (suc budget) n w
    do-attempts budget n w (none, w1) called =
        ap world (laws.succeeds budget goes once (n, w) _ (once_lem n w (none, w1) called))
        ∙ sym (attempts_step budget n w (none, w1) called)
    do-attempts zero n w (some e, w1) called =
        ap world (laws.exhausted goes once (n, w) _ e (once_lem n w (some e, w1) called))
        ∙ sym (last_attempt n w e w1 called)
    do-attempts (suc budget) n w (some e, w1) called = elim (Bool-cases (is_auth_error e)) [
      | inl refused ↦
          ap world (
            laws.refused (suc budget) goes once (n, w) _ e (once_lem n w (some e, w1) called)
              (ap not refused))
          ∙ sym (attempts_by (suc budget) n w e w1 false called (ap not refused))
      | inr brief ↦
          ap world (
            laws.again budget goes once (n, w) _ e (once_lem n w (some e, w1) called)
              (ap not brief))
          ∙ do-attempts budget (suc n) (fed (suc n) (some e) w1) _ refl
          ∙ sym (attempts_by (suc budget) n w e w1 true called (ap not brief))
    ]

    do_with_retry-attempts :
        (w : Work A)
        → 0 < config.attempts
        → (do_with_retry c do_ config client operation fn w).1.1 ≡ attempts config.attempts 0 w
    unfolding do_with_retry
    do_with_retry-attempts w some_attempts =
        subst (λ n. (do_ n goes once (0, w)).1.1 ≡ attempts n 0 w) (omega (arith, some_attempts))
          (do-attempts (config.attempts - 1) 0 w _ refl)

-- A message with a job, where at least one attempt is configured and retry-go keeps its laws. The
-- worker leaves what the plain loop leaves: the job's handler is called once for each attempt, on
-- what the attempt before left; after each call the job's client, if it names one, is told of it
-- with its number and how it went; and the next attempt is made exactly if the call failed, the
-- error is not one of authentication, and fewer attempts were made than are configured.
pub process_message_reports :
    {A : Type 0} (c : Codec) (do_ : RetryDo (ℕ × Work A)) (laws : RetryLaws do_)
    (config : RetryConfig) (reg : HandlerRegistry A) (body : Bytes) (job : Job) (w : Work A)
    → 0 < config.attempts
    → decode_job c body ≡ some job
    → process_message c do_ config reg body w
      ≡ attempts c job.client_id job.kind (handler_of job.kind reg job) config.attempts 0 w
unfolding process_message
process_message_reports c do_ laws config reg body job w some_attempts decoded = rw decoded (
    do_with_retry-attempts c job.client_id job.kind (handler_of job.kind reg job) do_ laws config w
      some_attempts)
