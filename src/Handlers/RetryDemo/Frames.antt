-- ===== src/Handlers/RetryDemo/Frames.antt =====
-- What every client sees of the demonstration.
use cali_go_stack.Base.{
  ℕ, ◌≡◌, refl, ap, ◌∙◌, subst, String, true, Option, none, some, [], ◌∷◌, lookup, insert,
}
use cali_go_stack.Json.{Codec, Json}
use cali_go_stack.Queue.Chan.{Bytes}
use cali_go_stack.Queue.Hub.{Hub, broadcasts, run, step}
use cali_go_stack.Queue.Job.{Job}
use cali_go_stack.Queue.Registry.{
  Failure, Work, HandlerRegistry, handler_of, decode_job, register, new_handler_registry,
}
use cali_go_stack.Queue.Worker.{
  RetryDo, RetryLaws, default_retry_config, do_with_retry, attempt, process_message, told,
}
use cali_go_stack.Handlers.Suggest.{Model, Clients}
use cali_go_stack.Handlers.RetryDemo.{
  demo_job, demo_frame, demo_error, demo_attempt, toast_job, handle_retry_demo_job,
  register_handlers, demo_done,
}

module _ (codec : Codec) where
  -- The hub after the three attempts and the toast.
  abbrev pub demo_hub : Hub → Hub
  demo_hub h = run h (
      broadcasts (codec.marshal (demo_frame 1 (demo_error 1)))
      ∷ broadcasts (codec.marshal (demo_frame 2 (demo_error 2)))
      ∷ broadcasts (codec.marshal (demo_frame 3 none))
      ∷ broadcasts (codec.marshal (toast_job "Queue + retry OK — 3 attempts" "success"))
      ∷ [])

module _ (codec : Codec) (do_ : (S : Type 0) → RetryDo S) (laws : (S : Type 0) → RetryLaws (do_ S))
    {A : Type 0} where
  abbrev demo_handler : Job → Work A → Option Failure × Work A
  demo_handler = handle_retry_demo_job codec (do_ (ℕ × Work A))

  demo_handler_lem :
      (job : Job) (w : Work A)
      → demo_handler job w ≡ (none, record w { hub = demo_hub codec w.hub })
  unfolding handle_retry_demo_job demo_attempt demo_error run step
  demo_handler_lem job w =
      let retries = laws (ℕ × Work A) in
      ap (demo_done codec) (
        retries.again 1 (λ e. true) (demo_attempt codec) (0, w) _ _ refl refl
        ∙ retries.again 0 (λ e. true) (demo_attempt codec) _ _ _ refl refl
        ∙ retries.succeeds 0 (λ e. true) (demo_attempt codec) _ _ refl)

  handler_of-register_handlers :
      (m : Model A) (cs : Clients) (quoted : String → String) (reg : HandlerRegistry A)
      → register_handlers codec do_ m cs (new_handler_registry quoted) ≡ some reg
      → handler_of "retry_demo" reg ≡ demo_handler
  unfolding register_handlers register handler_of new_handler_registry lookup insert
  handler_of-register_handlers m cs quoted reg registered =
      subst
        (λ (o : Option (HandlerRegistry A)).
          handler_of "retry_demo" (elim o [ none ↦ new_handler_registry quoted | some r ↦ r ])
          ≡ demo_handler)
        registered refl

  -- With the handlers registered on a new registry, where retry-go keeps its laws: a worker that takes
  -- a job of the retry demonstration, with any payload, broadcasts two failed attempts, the third, which succeeds, and the
  -- toast of success, in this order, and changes nothing else.
  pub demo_seen :
      (m : Model A) (cs : Clients) (quoted : String → String) (reg : HandlerRegistry A)
      (body : Bytes) (payload : Option Json) (w : Work A)
      → register_handlers codec do_ m cs (new_handler_registry quoted) ≡ some reg
      → decode_job codec body ≡ some (record demo_job { payload = payload })
      → process_message codec (do_ (ℕ × Work A)) default_retry_config reg body w
        ≡ record w { hub = demo_hub codec w.hub }
  unfolding process_message do_with_retry attempt
  demo_seen m cs quoted reg body payload w registered decoded = rw decoded (
      ap (λ (r : Option Failure × (ℕ × Work A)). r.1.1)
        ((laws (ℕ × Work A)).succeeds 2 _ _ (0, w) (1, record w { hub = demo_hub codec w.hub })
          (ap (told codec (do_ (ℕ × Work A)) default_retry_config "" "retry_demo" 1) (
            ap
              (λ (h : Job → Work A → Option Failure × Work A).
                h (record demo_job { payload = payload }) w)
              (handler_of-register_handlers m cs quoted reg registered)
            ∙ demo_handler_lem (record demo_job { payload = payload }) w))))
