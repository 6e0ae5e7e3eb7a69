-- ===== src/Tests/Streams.antt =====
-- The streams, the broadcasters and the onboarding on concrete frames.
use cali_go_stack.Base.{
  ◌≡◌, ◌≢◌, refl, String, true, false, Option, none, some, List, [], ◌∷◌, ◌++◌, ◌==◌, arith, eq_iff,
  lookup, codes, bytes_eq, ◌>>=◌, if◌then◌else◌,
}
use cali_go_stack.Json.{Json, bool, Codec, field, text_field, members}
use cali_go_stack.Queue.Chan.{Bytes}
use cali_go_stack.Queue.Job.{job_of, job_json}
use cali_go_stack.Queue.Hub.{Hub, broadcast}
use cali_go_stack.Store.Pb.{pb_store}
use cali_go_stack.Store.App.Table.{table_app}
use cali_go_stack.Nats.Realtime.{JetStream, jet_stream, publish_todo_update, deliver}
use cali_go_stack.Nats.Realtime.Relay.{relayed}
use cali_go_stack.Handlers.Output.{failure}
use cali_go_stack.Handlers.Stream.{dispatch_stream_message}
use cali_go_stack.Handlers.Publisher.{doc_event, publish_doc_event}
use cali_go_stack.Handlers.Stream.DocEvent.{doc_event_lost}
use cali_go_stack.Handlers.Stream.Button.{Browser, disabled, watch}
use cali_go_stack.Handlers.Onboarding.{
  Steps, Tick, timed_out, answered, unreachable, poll_run, on_tick, poll_start, publish_progress,
  give_up, todo_update_job, onboarding_current_step, current_from, phase_of, labelled,
}
use cali_go_stack.Handlers.Onboarding.Run.{poll_run_reports}
use cali_go_stack.Handlers.Onboarding.Outcome.{button_after_run}
use cali_go_stack.Tests.Hubs.{busy, busy-IsValid, holder_2}
use cali_go_stack.Tests.Stores.{shared}

-- A client's own tag in front of the payload does not keep the message from the client.
abbrev tagged : Bytes
tagged = 0 ∷ 97 ∷ 0 ∷ 104 ∷ []

abbrev idle : JetStream
idle = record { subscribed = true; closed = false; stored = [] }

relayed_example :
    deliver (λ bytes. "a") (jet_stream (record idle { stored = tagged ∷ [] })) busy
    ≡ some (jet_stream idle, broadcast busy tagged)
unfolding publish_todo_update
relayed_example = (relayed (λ bytes. "a") busy false tagged).1

-- The seventh version of Ann's document, as one byte on the wire.
abbrev one_event : Codec
one_event = record {
  marshal = λ v. 7 ∷ [];
  unmarshal = λ bytes. some (doc_event "ann" 7);
  text_of = λ v. "";
}

a2_some : ◌≢◌ {A = String} "a2" ""
a2_some e = ground (arith, eq_iff "a2" "")

doc_event_lost_example :
    (h : Hub) × ((publish_doc_event one_event "ann" 7 (record { hub = some busy; count = 0 })).hub
      ≡ some h)
    × (h.channels 2 ≡ record { capacity = 2; pending = (7 ∷ []) ∷ [] })
    × (dispatch_stream_message (pb_store table_app) one_event "ann" (7 ∷ []) shared
        ≡ (failure, shared))
unfolding lookup
doc_event_lost_example =
    doc_event_lost (pb_store table_app) one_event "ann" busy 0 "ann" "a2" 2 7 shared busy-IsValid
      refl refl a2_some holder_2 refl

-- The engine says that the first step is running.
abbrev greeting : Steps
greeting id =
    if id == "greet"
    then record { status = "running"; detail = "" }
    else record { status = ""; detail = "" }

abbrev waiting : List Tick
waiting = answered "running" greeting ∷ unreachable ∷ answered "running" greeting ∷ []

-- Two equal answers are one frame.
poll_run_reports_example :
    (poll_run (waiting ++ timed_out ∷ answered "completed" greeting ∷ []) poll_start).frames
    ≡ publish_progress 1 6 "greet" (labelled 1 "Greeting user") ∷ give_up
unfolding onboarding_current_step current_from phase_of
poll_run_reports_example =
    (poll_run_reports waiting (answered "completed" greeting ∷ []) timed_out
      (refl, (refl, (refl, tt))) refl).1

abbrev greeted : Json
greeted = publish_progress 1 6 "greet" (labelled 1 "Greeting user")

-- A code for the three frames of that run.
unfoldable phase : Json → Option String
unfolding job_of field
phase v = do j ← job_of v; p ← j.payload; ms ← members p; text_field "phase" ms

abbrev spelled : Option String → Bytes
spelled none = []
spelled (some t) = codes t

abbrev frame_of : Bytes → Json
frame_of bytes =
    if bytes_eq bytes (codes "greet")
    then greeted
    else if bytes_eq bytes (codes "idle")
    then publish_progress 0 0 "idle" "Onboarding timed out"
    else todo_update_job "workflow-timeout" "remote" "" "" false

abbrev three_frames : Codec
three_frames = record {
  marshal = λ v. spelled (phase v);
  unmarshal = λ bytes. some (frame_of bytes);
  text_of = λ v. "";
}

-- Ann's page after a click on the button.
abbrev clicked : Browser
clicked key = bool (key == "onboardingActive")

-- The workflow times out while it greets: the button stays disabled.
button_after_run_example :
    disabled
      (watch
        (pb_store table_app)
        three_frames
        "ann"
        (poll_run (waiting ++ timed_out ∷ []) poll_start).frames
        shared
        clicked).0
    ≡ true
unfolding poll_run on_tick onboarding_current_step current_from phase_of phase publish_progress
    todo_update_job job_json job_of field
button_after_run_example =
    button_after_run (pb_store table_app) three_frames "ann" waiting [] timed_out shared clicked
      (refl, (refl, (refl, tt))) refl (refl, (refl, tt)) refl (refl, (refl, (refl, tt)))
