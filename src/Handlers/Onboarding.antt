-- ===== src/Handlers/Onboarding.antt =====
-- features/todo/handlers/onboarding.go and todo_update_job_dagnats.go: the durable onboarding
-- workflow as the clients see it. The engine that runs the workflow is not part of the repository:
-- its answers are inputs. The routes are not registered without a broadcaster, so that one is
-- there; whether a publication fails is ignored by the code. Frames stand before json.Marshal, the
-- keys of a map in Go's order.
pub mod Run
pub mod Outcome
use cali_go_stack.Base.{
  ℕ, zero, suc, ◌+◌, ◌-◌, String, Bool, true, false, ◌&&◌, ◌||◌, Option, none, some, List, [], ◌∷◌,
  ◌++◌, ◌==◌, length, nat_eq, concat, decimal, if◌then◌else◌,
}
use cali_go_stack.Json.{Json, text, number, bool, object, end, member}
use cali_go_stack.Queue.Job.{Job, job_json}

-- What the engine says of one step; a step that the answer lacks has the empty status, and a detail
-- that is not a text is empty.
pub record StepStatus : Type 0 where
  pub status : String
  pub detail : String

abbrev pub Steps : Type 0
Steps = String → StepStatus

abbrev pub onboarding_step_order : List String
onboarding_step_order =
    "greet" ∷ "await-first-todo" ∷ "todo-1" ∷ "todo-2" ∷ "todo-3" ∷ "finalize" ∷ []

abbrev pub total : ℕ
total = length onboarding_step_order

-- The step, the phase and the detail that the clients are shown.
pub record Shown : Type 0 where
  pub step : ℕ
  pub phase : String
  pub detail : String

-- The phase and the detail of a step by its number: pollRun and onboardingCurrentStep write out
-- the same table.
unfoldable pub phase_of : ℕ → Shown
phase_of s =
    if nat_eq s 1
    then record { step = s; phase = "greet"; detail = "Greeting user" }
    else if nat_eq s 2
    then record {
      step = s;
      phase = "workflow";
      detail = "Waiting for your next to-do (create one to continue)";
    }
    else if nat_eq s 3 || nat_eq s 4 || nat_eq s 5
    then record {
      step = s;
      phase = "workflow";
      detail = concat ("Creating example todo " ∷ decimal (s - 2) ∷ "/3" ∷ []);
    }
    else record { step = s; phase = "finalize"; detail = "Finalizing onboarding" }

-- The loop of onboardingCurrentStep, with `i` steps behind it.
unfoldable pub current_from : ℕ → List String → Steps → Shown
current_from i [] steps = record { step = 1; phase = "greet"; detail = "Greeting user" }
current_from i (id ∷ ids) steps =
    let rest = current_from (suc i) ids steps in
    if (steps id).status == "running"
    then phase_of (suc i)
    else if (steps id).status == "failed"
    then record { step = suc i; phase = "error"; detail = (steps id).detail }
    else rest

unfoldable pub onboarding_current_step : Steps → Shown
onboarding_current_step steps = current_from 0 onboarding_step_order steps

unfoldable pub failed_from : ℕ → List String → Steps → ℕ × String
failed_from i [] steps = (1, "unknown error")
failed_from i (id ∷ ids) steps =
    let rest = failed_from (suc i) ids steps in
    if (steps id).status == "failed" then (suc i, (steps id).detail) else rest

unfoldable pub onboarding_failed_step : Steps → ℕ × String
onboarding_failed_step steps = failed_from 0 onboarding_step_order steps

-- The envelope that publishProgress hands to the broadcaster.
unfoldable pub publish_progress : (step total : ℕ) (phase detail : String) → Json
publish_progress step total phase detail = job_json (record {
  kind = "progress";
  client_id = "";
  payload = some (
      object (
        member "detail" (text detail) (
          member "phase" (text phase)
            (member "step" (number step) (member "total" (number total) end)))));
})

unfoldable pub todo_update_job : (event source id title : String) (finished : Bool) → Json
todo_update_job event source id title finished = job_json (record {
  kind = "todo";
  client_id = "";
  payload = some (
      object (
        member "done" (bool finished) (
          member "event" (text event) (
            member "id" (text id)
              (member "source" (text source) (member "title" (text title) end))))));
})

-- "Step %d/%d — %s"
abbrev pub labelled : ℕ → String → String
labelled s detail = concat ("Step " ∷ decimal s ∷ "/" ∷ decimal total ∷ " — " ∷ detail ∷ [])

abbrev pub progress : Shown → Json
progress s = publish_progress s.step total s.phase (labelled s.step s.detail)

-- What wakes pollRun: the timeout, or a tick and what the engine answers to it.
pub data Tick : Type 0 where
  timed_out : Tick
  unreachable : Tick
  answered : (overall : String) → Steps → Tick

-- The frames for steps that the ticks have missed: `n` steps from `s` on.
unfoldable pub catch_up : (n s : ℕ) → List Json
catch_up zero s = []
catch_up (suc n) s = progress (phase_of s) ∷ catch_up n (suc s)

abbrev pub same_shown : Shown → Shown → Bool
same_shown a b = nat_eq a.step b.step && a.phase == b.phase && a.detail == b.detail

-- The state of pollRun: what it has last published, and everything that it has published.
pub record Poll : Type 0 where
  pub last : Shown
  pub frames : List Json
  pub finished : Bool

abbrev pub poll_start : Poll
poll_start = record {
  last = record { step = 0; phase = ""; detail = "" };
  frames = [];
  finished = false;
}

abbrev pub give_up : List Json
give_up =
    publish_progress 0 0 "idle" "Onboarding timed out"
    ∷ todo_update_job "workflow-timeout" "remote" "" "" false
    ∷ []

abbrev pub all_steps_shown : Json
all_steps_shown =
    publish_progress total total "finalize"
      (concat ("Step " ∷ decimal total ∷ "/" ∷ decimal total ∷ " — Onboarding complete" ∷ []))

abbrev pub completed_frames : ℕ → List Json
completed_frames last =
    catch_up (total - suc last) (suc last)
    ++ all_steps_shown ∷ todo_update_job "workflow-completed" "remote" "" "" false ∷ []

abbrev pub failed_frames : ℕ × String → List Json
failed_frames (step, detail) =
    publish_progress step total "error" (concat ("Onboarding failed: " ∷ detail ∷ []))
    ∷ todo_update_job "workflow-error" "remote" "" detail false
    ∷ []

-- The returns of pollRun.
abbrev pub ended : List Json → Poll → Poll
ended fs p = record p { frames = p.frames ++ fs; finished = true }

abbrev pub shows : Shown → Poll → Poll
shows now p =
    if same_shown now p.last
    then p
    else record p { last = now; frames = p.frames ++ progress now ∷ [] }

-- One round of the loop.
unfoldable pub on_tick : Tick → Poll → Poll
on_tick timed_out p = ended give_up p
on_tick unreachable p = p
on_tick (answered overall steps) p =
    if overall == "completed"
    then ended (completed_frames p.last.step) p
    else if overall == "failed"
    then ended (failed_frames (onboarding_failed_step steps)) p
    else shows (onboarding_current_step steps) p

unfoldable pub poll_run : List Tick → Poll → Poll
poll_run [] p = p
poll_run (t ∷ ts) p =
    let next = on_tick t p in let rest = poll_run ts next in if p.finished then p else rest

-- The handler's state: the one run that a first todo resumes.
pub record Onboarding : Type 0 where
  pub active_run : String
  pub frames : List Json

-- ResumeOnboarding, with the engine's answer to the signal; the user is not looked at.
unfoldable pub resume_onboarding :
    (signal : String → Option String) (user : String) → Onboarding → Onboarding
resume_onboarding signal user h = if h.active_run == "" then h else record h {
  frames =
      h.frames
      ++ (elim (signal h.active_run) [
        | some error ↦
            todo_update_job "workflow-error" "remote" "" (concat ("resume failed: " ∷ error ∷ []))
              false
        | none ↦
            todo_update_job "workflow-resumed" "remote" "" "First todo captured — workflow resuming"
              false
      ])
        ∷ [];
}

-- The user of handleStart: the form's, the session's, or a default.
unfoldable pub start_user : (form : String) → (session : Option String) → String
start_user form session =
    let user = if form == "" then elim session [ none ↦ "" | some id ↦ id ] else form in
    if user == "" then "friend" else user

-- The goroutine of handleStart up to pollRun: the engine's answer to the start is the run's id or
-- an error.
unfoldable pub start_run : (ok : Bool) (answer : String) → Onboarding → Onboarding
start_run started answer h = if started then record h { active_run = answer } else record h {
  frames = h.frames ++ todo_update_job "workflow-error" "remote" "" answer false ∷ [];
}
