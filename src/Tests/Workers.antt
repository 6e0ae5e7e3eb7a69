-- ===== src/Tests/Workers.antt =====
-- A worker on a concrete message.
use cali_go_stack.Base.{ℕ, ◌≡◌, refl, none, some, [], ◌∷◌, arith}
use cali_go_stack.Json.{Codec, object, end, field}
use cali_go_stack.Queue.Job.{Job, job_of, job_json}
use cali_go_stack.Queue.Registry.{HandlerRegistry, decode_job, handler_of}
use cali_go_stack.Queue.Worker.{default_retry_config, process_message}
use cali_go_stack.Queue.Worker.Loop.{retry_loop, retry_loop-laws}
use cali_go_stack.Queue.Worker.Attempts.{attempts, process_message_reports}
use cali_go_stack.Tests.Hubs.{busy}

abbrev job : Job
job = record { kind = "demo"; client_id = "a1"; payload = some (object end) }

abbrev one_job : Codec
one_job = record {
  marshal = λ v. 1 ∷ [];
  unmarshal = λ bytes. some (job_json job);
  text_of = λ v. "";
}

-- The handler of every type fails.
abbrev failing : HandlerRegistry ℕ
failing = record {
  handlers = [];
  not_found_handler = λ j w. (some (record { message = "no"; status = none }), w);
}

-- Three calls, and three frames to the client.
process_message_reports_example :
    process_message one_job retry_loop default_retry_config failing
      (1 ∷ [])
      (record { hub = busy; rest = 0 })
    ≡ attempts one_job "a1" "demo"
        (handler_of "demo" failing job)
        3
        0
        (record { hub = busy; rest = 0 })
unfolding decode_job job_of job_json field
process_message_reports_example =
    process_message_reports one_job retry_loop retry_loop-laws default_retry_config failing (1 ∷ [])
      job (record { hub = busy; rest = 0 }) (omega arith) refl
