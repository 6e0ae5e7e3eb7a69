-- ===== src/Handlers/Suggest/Simulated.antt =====
-- A suggestion by the simulated model, from the job on the queue to the frames on the client's channel.
use cali_go_stack.Base.{
  ℕ, ◌≡◌, refl, ap, ◌∙◌, String, false, Option, none, some, List, [], ◌∷◌, ◌==◌, map, codes, is_nil,
  concat, cut, trim_left, trim_right, suc, zero,
}
use cali_go_stack.Json.{Json, Codec}
use cali_go_stack.Queue.Chan.{Bytes}
use cali_go_stack.Queue.Hub.{Hub, sends, send, run, step}
use cali_go_stack.Queue.Job.{Job}
use cali_go_stack.Queue.Registry.{Failure, Work, HandlerRegistry, handler_of, decode_job}
use cali_go_stack.Queue.Worker.{
  RetryDo, RetryLaws, default_retry_config, retry_frame, do_with_retry, attempt, told,
  process_message, is_auth_error,
}
use cali_go_stack.Llm.Reply.{Text, parse_string_array, has_prefix, first_array, keep, is_space}
use cali_go_stack.Llm.Fake.{
  FakeServer, FakeRequest, single, forced, handle, status_at, authorize, new_server, apply,
}
use cali_go_stack.Llm.Client.{
  Client, Sdk, Outcome, answered, refused, chat, chat_suggest, new_simulated, simulated_response,
  prompt_for, wrapped, chatted, generated, or_lines,
}
use cali_go_stack.Handlers.Suggest.{
  Model, Clients, handle_suggest_job, suggest_result, push_result, partial_of,
}

abbrev pub request : Client → FakeRequest
request c = record { bearer = c.api_key; stream = some false }

-- goai's error for a status.
abbrev pub api_error : (ℕ → String) → ℕ → Failure
api_error message status = record { message = message status; status = some status }

-- goai posts one chat completion with the client's key to the server at the client's URL: it returns
-- the content of the answer, and an error with the status where that is not 200.
pub record Served (sdk : Sdk FakeServer) (c : Client) (message : ℕ → String) : Type 0 where
  pub content :
      (prompt t : Text) (s s' : FakeServer)
      → handle s (request c) ≡ (single t, s')
      → sdk.generate_text c prompt s ≡ (answered t, s')
  pub status :
      (prompt : Text) (code : ℕ) (s s' : FakeServer)
      → handle s (request c) ≡ (forced code, s')
      → sdk.generate_text c prompt s ≡ (refused (api_error message code), s')

module _ (codec : Codec) (do_ : (S : Type 0) → RetryDo S) (laws : (S : Type 0) → RetryLaws (do_ S))
    (m : Model FakeServer) (url : Text) (message : ℕ → String)
    (served : Served m.sdk (new_simulated url).0 message) where
  abbrev pub client : Client
  client = (new_simulated url).0

  -- The server after a number of calls.
  abbrev pub server : ℕ → FakeServer
  server n = record ((new_simulated url).1) { call_count = n }

  abbrev pub server_error : Failure
  server_error = wrapped "llm: generate: " (api_error message 500)

  first_call :
      (prompt : Text)
      → m.sdk.generate_text client prompt (server 0) ≡ (refused (api_error message 500), server 1)
  unfolding new_simulated new_server apply handle status_at authorize
  first_call prompt = served.status prompt 500 (server 0) (server 1) refl

  -- Every call after the first is answered.
  later_call :
      (n : ℕ) (prompt : Text)
      → m.sdk.generate_text client prompt (server (suc n))
        ≡ (answered simulated_response, server (suc (suc n)))
  unfolding new_simulated new_server apply handle status_at authorize
  later_call zero prompt = served.content prompt simulated_response (server 1) (server 2) refl
  later_call (suc n) prompt =
      served.content prompt simulated_response (server (suc (suc n))) (server (suc (suc (suc n))))
        refl

  abbrev pub world : Hub → ℕ → Work FakeServer
  world h n = record { hub = h; rest = server n }

  -- What the function that is retried makes of an answer.
  abbrev told_once :
      Hub → ℕ → Outcome Text × FakeServer → Option Failure × (ℕ × Work (Text × FakeServer))
  told_once h n r =
      told codec (do_ (ℕ × Work (Text × FakeServer))) client.retry "" "llm.chat" 1
        (generated codec do_ m.sdk (record { hub = h; rest = ([], server n) }) r)

  chat-first :
      (prompt : Text) (h : Hub)
      → chat codec do_ m.sdk client prompt (world h 0) ≡ (refused server_error, world h 1)
  unfolding chat do_with_retry attempt new_simulated
  chat-first prompt h = ap (chatted codec do_ m.sdk) (
      (laws (ℕ × Work (Text × FakeServer))).exhausted _ _ (0, _)
        (1, record { hub = h; rest = ([], server 1) }) server_error
        (ap (told_once h 0) (first_call prompt)))

  chat-later :
      (n : ℕ) (prompt : Text) (h : Hub)
      → chat codec do_ m.sdk client prompt (world h (suc n))
        ≡ (answered simulated_response, world h (suc (suc n)))
  unfolding chat do_with_retry attempt new_simulated
  chat-later n prompt h = ap (chatted codec do_ m.sdk) (
      (laws (ℕ × Work (Text × FakeServer))).succeeds 0 _ _ (0, _)
        (1, record { hub = h; rest = (simulated_response, server (suc (suc n))) })
        (ap (told_once h (suc n)) (later_call n prompt)))

  abbrev pub tasks : List Text
  tasks =
      codes "Review the pull request"
      ∷ codes "Write the meeting notes"
      ∷ codes "Ping the on-call engineer"
      ∷ []

  -- The two results that a client is sent.
  abbrev pub failed_frame : Json
  failed_frame = suggest_result [] (concat ("AI suggest failed: " ∷ server_error.message ∷ []))

  abbrev pub tasks_frame : Json
  tasks_frame = suggest_result (map m.text_of tasks) ""

  response_lem :
      m.decode simulated_response ≡ some tasks
      → or_lines simulated_response (parse_string_array m.decode simulated_response) ≡ tasks
  unfolding parse_string_array has_prefix first_array cut keep trim_left trim_right is_space
  response_lem read = rw read refl

  module _ (cs : Clients) (job : Job) (partial : String) (wired : cs.simulated ≡ some client)
      (kind : job.kind ≡ "suggest_simulated") (payload : partial_of job.payload ≡ some partial)
      (typed : is_nil (codes partial) ≡ false) (known : (job.client_id == "") ≡ false)
      (read : m.decode simulated_response ≡ some tasks) where
    abbrev sent_to : Hub → Json → Hub
    sent_to h frame = send h job.client_id (codec.marshal frame)

    handle-first :
        (h : Hub)
        → handle_suggest_job codec do_ m cs job (world h 0)
          ≡ (some server_error, world (sent_to h failed_frame) 1)
    unfolding handle_suggest_job chat_suggest push_result new_simulated
    handle-first h =
        rw (payload, kind, wired, typed, chat-first (prompt_for (m.quote (codes partial))) h, known)
          refl

    handle-later :
        (n : ℕ) (h : Hub)
        → handle_suggest_job codec do_ m cs job (world h (suc n))
          ≡ (none, world (sent_to h tasks_frame) (suc (suc n)))
    unfolding handle_suggest_job chat_suggest push_result new_simulated
    handle-later n h =
        rw
          (
            payload,
            kind,
            wired,
            typed,
            chat-later n (prompt_for (m.quote (codes partial))) h,
            response_lem read,
            known,
          )
          refl

    abbrev retry_of : ℕ → Option Failure → Json
    retry_of n e = retry_frame job.client_id job.kind n e

    -- The outer attempts, the first of which fails.
    first_attempt :
        (reg : HandlerRegistry FakeServer) (h : Hub)
        → handler_of job.kind reg ≡ handle_suggest_job codec do_ m cs
        → attempt codec
            (do_ (ℕ × Work FakeServer))
            default_retry_config
            job.client_id
            job.kind
            (handler_of job.kind reg job)
            (0, world h 0)
          ≡ (
            some server_error,
            (1, world (sent_to (sent_to h failed_frame) (retry_of 1 (some server_error))) 1),
          )
    unfolding attempt
    first_attempt reg h registered = rw (registered, handle-first h, known) refl

    later_attempt :
        (reg : HandlerRegistry FakeServer) (k n : ℕ) (h : Hub)
        → handler_of job.kind reg ≡ handle_suggest_job codec do_ m cs
        → attempt codec
            (do_ (ℕ × Work FakeServer))
            default_retry_config
            job.client_id
            job.kind
            (handler_of job.kind reg job)
            (k, world h (suc n))
          ≡ (
            none,
            (suc k, world (sent_to (sent_to h tasks_frame) (retry_of (suc k) none)) (suc (suc n))),
          )
    unfolding attempt
    later_attempt reg k n h registered = rw (registered, handle-later n h, known) refl

    abbrev pub processed : HandlerRegistry FakeServer → Bytes → Hub → ℕ → Work FakeServer
    processed reg body h n =
        process_message codec (do_ (ℕ × Work FakeServer)) default_retry_config reg body (world h n)

    -- A job of a client for a suggestion by the simulated model, on a text that is not empty, where the
    -- handlers are registered, retry-go keeps its laws, goai does as documented with the server and
    -- its answer's array is read: the first job since the server started fails once and is then
    -- answered, and the client is sent the failed result, the failed attempt, the three tasks and the
    -- attempt that succeeded, in this order; every later job is answered at its first attempt, with two
    -- frames. The server is called once for each attempt.
    pub simulated_recovers :
        (reg : HandlerRegistry FakeServer) (body : Bytes) (h : Hub) (n : ℕ)
        → decode_job codec body ≡ some job
        → handler_of job.kind reg ≡ handle_suggest_job codec do_ m cs
        → let tell = λ (frame : Json). sends job.client_id (codec.marshal frame) in
          (processed reg body h 0 ≡ record {
            hub = run h (
                tell failed_frame
                ∷ tell (retry_frame job.client_id job.kind 1 (some server_error))
                ∷ tell tasks_frame
                ∷ tell (retry_frame job.client_id job.kind 2 none)
                ∷ []);
            rest = server 2;
          })
          × (processed reg body h (suc n) ≡ record {
            hub = run h (tell tasks_frame ∷ tell (retry_frame job.client_id job.kind 1 none) ∷ []);
            rest = server (suc (suc n));
          })
    unfolding process_message do_with_retry is_auth_error run step
    simulated_recovers reg body h n decoded registered =
        let retries = laws (ℕ × Work FakeServer) in
        (
          rw decoded (
              ap (λ (r : Option Failure × (ℕ × Work FakeServer)). r.1.1)
                (retries.again 1 _ _ (0, world h 0) _ server_error (first_attempt reg h registered)
                    refl
                  ∙ retries.succeeds 1 _ _ _ _ (later_attempt reg 1 0 _ registered))),
          rw decoded (
              ap (λ (r : Option Failure × (ℕ × Work FakeServer)). r.1.1)
                (retries.succeeds 2 _ _ (0, world h (suc n)) _
                  (later_attempt reg 0 n h registered))),
        )
