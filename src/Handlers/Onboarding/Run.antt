-- ===== src/Handlers/Onboarding/Run.antt =====
-- What one run of the onboarding publishes.
use cali_go_stack.Base.{
  String, ◌≡◌, refl, ap, Bool, true, false, ◌||◌, List, [], ◌∷◌, ◌++◌, ◌==◌, map, arith, Bool-cases,
  inl, inr, if◌then◌else◌,
}
use mathlib.Core.List.{append-nil, append_assoc}
use cali_go_stack.Json.{Json}
use cali_go_stack.Store.App.{All}
use cali_go_stack.Handlers.Onboarding.{
  Steps, Shown, Tick, timed_out, unreachable, answered, Poll, poll_start, poll_run, on_tick,
  onboarding_current_step, onboarding_failed_step, progress, same_shown, give_up, completed_frames,
  failed_frames, shows, ended,
}

-- The ticks that end a run: the timeout, and an answer that says that the run is completed or failed.
abbrev pub ends : Tick → Bool
ends timed_out = true
ends unreachable = false
ends (answered overall steps) = overall == "completed" || overall == "failed"

-- The current steps that the engine's answers tell, in their order.
abbrev pub told : List Tick → List Shown
told [] = []
told (answered overall steps ∷ ts) = onboarding_current_step steps ∷ told ts
told (timed_out ∷ ts) = told ts
told (unreachable ∷ ts) = told ts

-- Without those that only repeat the one before.
abbrev pub changes : Shown → List Shown → List Shown
changes prev [] = []
changes prev (s ∷ ss) = if same_shown s prev then changes prev ss else s ∷ changes s ss

abbrev pub last_of : Shown → List Shown → Shown
last_of prev [] = prev
last_of prev (s ∷ ss) = last_of s ss

-- What is published at the end, after the step that was shown last.
abbrev pub ending : Shown → Tick → List Json
ending shown timed_out = give_up
ending shown unreachable = []
ending shown (answered overall steps) =
    if overall == "completed"
    then completed_frames shown.step
    else failed_frames (onboarding_failed_step steps)

on_tick-ends :
    (tick : Tick) (p : Poll) → ends tick ≡ true → on_tick tick p ≡ ended (ending p.last tick) p
unfolding on_tick
on_tick-ends timed_out p over = refl
on_tick-ends unreachable p over = cc
on_tick-ends (answered overall steps) p over = elim (Bool-cases (overall == "completed")) [
  | inl completed ↦ rw completed
  | inr other ↦ ground (arith, over, other)
]

on_tick_waits :
    (overall : String) (steps : Steps) (p : Poll)
    → (overall == "completed" || overall == "failed") ≡ false
    → on_tick (answered overall steps) p ≡ shows (onboarding_current_step steps) p
unfolding on_tick
on_tick_waits overall steps p waits = ground (arith, waits)

on_tick_unreachable : (p : Poll) → on_tick unreachable p ≡ p
unfolding on_tick
on_tick_unreachable p = refl

poll_run_finished : (ts : List Tick) (p : Poll) → p.finished ≡ true → poll_run ts p ≡ p
unfolding poll_run
poll_run_finished [] p e = refl
poll_run_finished (t ∷ ts) p e = rw e

-- The state of a run that has not ended.
abbrev pub polling : Shown → List Json → Poll
polling last frames = record { last = last; frames = frames; finished = false }

-- The state after a run from `last` on over the given steps, and its last tick.
abbrev pub outcome : Shown → List Json → List Shown → Tick → Poll
outcome last frames steps tick =
    let shown = changes last steps in
    record {
      last = last_of last shown;
      frames = (frames ++ map progress shown) ++ ending (last_of last shown) tick;
      finished = true;
    }

poll_run-lem :
    (before after : List Tick) (tick : Tick) (last : Shown) (frames : List Json)
    → All (λ t. ends t ≡ false) before
    → ends tick ≡ true
    → poll_run (before ++ tick ∷ after) (polling last frames)
      ≡ outcome last frames (told before) tick
unfolding poll_run
poll_run-lem [] after tick last frames waits over = rw (
  on_tick-ends tick (polling last frames) over,
  poll_run_finished after (ended (ending last tick) (polling last frames)) refl,
  append-nil frames,
)
poll_run-lem (timed_out ∷ ts) after tick last frames waits over = cc
poll_run-lem (unreachable ∷ ts) after tick last frames waits over =
    rw (
      on_tick_unreachable (polling last frames),
      poll_run-lem ts after tick last frames waits.1 over,
    )
poll_run-lem (answered overall steps ∷ ts) after tick last frames waits over =
    let now = onboarding_current_step steps in
    let waited = on_tick_waits overall steps (polling last frames) waits.0 in
    elim (Bool-cases (same_shown now last)) [
      | inl same ↦ rw (waited, same, poll_run-lem ts after tick last frames waits.1 over)
      | inr new ↦ rw (
        waited,
        new,
        poll_run-lem ts after tick now (frames ++ progress now ∷ []) waits.1 over,
        append_assoc frames (progress now ∷ []) (map progress (changes now (told ts))),
      )
    ]

-- A run ends at its first tick that ends it: the timeout, or an answer that the workflow is
-- completed or failed. Up to there it has published one progress frame for each change of the
-- current step, in the order of the answers and none twice in a row, then the frames of that end,
-- and nothing that happens afterwards adds to them.
pub poll_run_reports :
    (before after : List Tick) (tick : Tick)
    → All (λ t. ends t ≡ false) before
    → ends tick ≡ true
    → let shown = changes poll_start.last (told before) in
      let p = poll_run (before ++ tick ∷ after) poll_start in
      (p.finished ≡ true)
      × (p.frames ≡ map progress shown ++ ending (last_of poll_start.last shown) tick)
poll_run_reports before after tick waits over =
    let done = poll_run-lem before after tick poll_start.last [] waits over in
    (ap (λ (p : Poll). p.finished) done, ap (λ (p : Poll). p.frames) done)
