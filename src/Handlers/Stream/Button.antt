-- ===== src/Handlers/Stream/Button.antt =====
-- The button that starts the onboarding, on a client whose stream gets the frames of one run: the
-- frames of Handlers.Onboarding through the dispatch of Handlers.Stream.
use cali_go_stack.Base.{
  ℕ, ◌≡◌, refl, sym, ◌∙◌, String, Bool, true, false, not, ◌&&◌, some, List, [], ◌∷◌, ◌++◌, ◌==◌,
  arith, Bool-cases, inl, inr, ◌⊎◌, subst, if◌then◌else◌,
}
use cali_go_stack.Json.{Json, bool, Codec, field}
use cali_go_stack.Queue.Job.{job_of, job_json}
use cali_go_stack.Store.Entity.{Todo, Result, ok, err, EntityStore}
use cali_go_stack.Store.App.{All}
use cali_go_stack.Handlers.Output.{Output, merge, toast, merge_todos, Signals, apply_onboarding}
use cali_go_stack.Handlers.Stream.{
  dispatch_stream_message, stream_progress, stream_todo, todo_event, TodoEvent, on_todo, counted,
  listed,
}
use cali_go_stack.Handlers.Onboarding.{total, publish_progress, todo_update_job}

-- The client's signals: those that an output merges take the place of the old ones.
abbrev pub Browser : Type 0
Browser = String → Json

abbrev pub merged : Signals → Browser → Browser
merged [] b = b
merged ((k, v) ∷ rest) b = merged rest (λ key. if k == key then v else b key)

abbrev pub apply_output : Output → Browser → Browser
apply_output (merge signals) b = merged signals b
apply_output (merge_todos todos signals) b = merged signals b
apply_output _ b = b

abbrev pub apply_all : List Output → Browser → Browser
apply_all [] b = b
apply_all (o ∷ os) b = apply_all os (apply_output o b)

abbrev pub is_true : Json → Bool
is_true (bool b) = b
is_true _ = false

-- data-attr:disabled="$onboardingActive && !$workflowCompleted"
abbrev pub disabled : Browser → Bool
disabled b = is_true (b "onboardingActive") && not (is_true (b "workflowCompleted"))

-- A frame that leaves the button as it is.
abbrev pub Busy : Json → Type 0
Busy f =
    ((step : ℕ) × (total : ℕ) × (phase : String) × (detail : String) × (f
        ≡ publish_progress step total phase detail)
      × ((phase == "finalize") ≡ false))
    ⊎ ((event : String) × (title : String) × (f ≡ todo_update_job event "remote" "" title false)
        × ((event == "workflow-completed") ≡ false))

module _ {S : Type 0} (st : EntityStore S) (c : Codec) (user : String) where
  -- The client after the frames, one after another, and the strategy's state.
  abbrev pub watch : List Json → S → Browser → Browser × S
  watch [] s b = (b, s)
  watch (f ∷ fs) s b =
      let (x, s') = dispatch_stream_message st c user (c.marshal f) s in
      watch fs s' (apply_all x.out b)

  -- encoding/json reads back the frame that it wrote.
  abbrev pub Reads : Json → Type 0
  Reads f = c.unmarshal (c.marshal f) ≡ some f

  -- The stream shows a progress frame as it was published.
  pub dispatch-publish_progress :
      (step total : ℕ) (phase detail : String) (s : S)
      → Reads (publish_progress step total phase detail)
      → dispatch_stream_message st c user (c.marshal (publish_progress step total phase detail)) s
        ≡ (
          record {
            out =
                apply_onboarding step total phase detail (phase == "finalize")
                ∷ toast detail "info"
                ∷ [];
            failed = false;
          },
          s,
        )
  unfolding dispatch_stream_message stream_progress publish_progress job_of job_json field
  dispatch-publish_progress step total phase detail s reads = rw reads

  dispatch-todo_update_job :
      (event title : String) (s : S)
      → Reads (todo_update_job event "remote" "" title false)
      → dispatch_stream_message st c user
          (c.marshal (todo_update_job event "remote" "" title false))
          s
        ≡ on_todo st c user
            (some (record { event = event; id = ""; title = title; finished = false }))
            s
  unfolding dispatch_stream_message stream_todo todo_event todo_update_job job_of job_json field
  dispatch-todo_update_job event title s reads = rw reads

  progress_keeps :
      (step total : ℕ) (phase detail : String) (s : S) (b : Browser)
      → Reads (publish_progress step total phase detail)
      → (phase == "finalize") ≡ false
      → disabled b ≡ true
      → disabled (
          apply_all
            (dispatch_stream_message st c user
              (c.marshal (publish_progress step total phase detail))
              s).0.out
            b)
        ≡ true
  unfolding apply_onboarding
  progress_keeps step total phase detail s b reads early busy =
      ground (arith, dispatch-publish_progress step total phase detail s reads, early, busy)

  listed_keeps :
      (n : ℕ) (x : Result (List Todo) × S) (b : Browser)
      → disabled (apply_all (listed st c user n x).0.out b) ≡ disabled b
  listed_keeps n (ok todos, s) b = refl
  listed_keeps n (err e, s) b = refl

  counted_keeps :
      (evt : TodoEvent) (x : Result ℕ × S) (b : Browser)
      → disabled (apply_all (counted st c user evt x).0.out b) ≡ disabled b
  counted_keeps evt (err e, s) b = refl
  counted_keeps evt (ok n, s) b = elim (Bool-cases (evt.event == "deleted")) [
    | inl gone ↦ rw gone
    | inr other ↦ rw (other, listed_keeps n (st.list user "all" s) b)
  ]

  todo_keeps :
      (event title : String) (s : S) (b : Browser)
      → Reads (todo_update_job event "remote" "" title false)
      → (event == "workflow-completed") ≡ false
      → disabled (
          apply_all
            (dispatch_stream_message st c user
              (c.marshal (todo_update_job event "remote" "" title false))
              s).0.out
            b)
        ≡ disabled b
  todo_keeps event title s b reads other =
      rw (dispatch-todo_update_job event title s reads, other, counted_keeps _ (st.count user s) b)

  completed_enables :
      (s : S) (b : Browser)
      → Reads (todo_update_job "workflow-completed" "remote" "" "" false)
      → disabled (
          apply_all
            (dispatch_stream_message st c user
              (c.marshal (todo_update_job "workflow-completed" "remote" "" "" false))
              s).0.out
            b)
        ≡ false
  unfolding apply_onboarding
  completed_enables s b reads = rw (dispatch-todo_update_job "workflow-completed" "" s reads)

  abbrev Keeps : S → Browser → Json → Type 0
  Keeps s b f =
      Reads f
      → disabled b ≡ true
      → disabled (apply_all (dispatch_stream_message st c user (c.marshal f) s).0.out b) ≡ true

  Busy-Keeps : (f : Json) (s : S) (b : Browser) → Busy f → Keeps s b f
  Busy-Keeps f s b (inl (step, total, phase, detail, same, early)) =
      subst (Keeps s b) (sym same)
        (λ reads busy. progress_keeps step total phase detail s b reads early busy)
  Busy-Keeps f s b (inr (event, title, same, other)) =
      subst (Keeps s b) (sym same) (λ reads busy. todo_keeps event title s b reads other ∙ busy)

  pub watch_keeps :
      (fs : List Json) (s : S) (b : Browser)
      → All Busy fs
      → All Reads fs
      → disabled b ≡ true
      → disabled (watch fs s b).0 ≡ true
  watch_keeps [] s b quiet reads busy = busy
  watch_keeps (f ∷ fs) s b quiet reads busy =
      watch_keeps fs _ _ quiet.1 reads.1 (Busy-Keeps f s b quiet.0 reads.0 busy)

  pub watch_enables :
      (fs : List Json) (s : S) (b : Browser)
      → let end = todo_update_job "workflow-completed" "remote" "" "" false in
        All Reads (fs ++ end ∷ []) → disabled (watch (fs ++ end ∷ []) s b).0 ≡ false
  watch_enables [] s b reads = completed_enables s b reads.0
  watch_enables (f ∷ fs) s b reads = watch_enables fs _ _ reads.1
