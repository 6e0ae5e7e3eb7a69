-- ===== src/Handlers/Onboarding/Outcome.antt =====
-- How the clients see a run of the onboarding: from pollRun's frames through the dispatch of the
-- stream to the button that starts the onboarding.
use cali_go_stack.Base.{
  suc, ◌-◌, ◌≡◌, refl, sym, ap, ◌∙◌, subst, String, Bool, true, false, not, List, [], ◌∷◌, ◌++◌,
  ◌==◌, map, Bool-cases, inl, inr,
}
use mathlib.Core.List.{append_assoc}
use cali_go_stack.Json.{Json, Codec}
use cali_go_stack.Store.Entity.{EntityStore}
use cali_go_stack.Store.App.{All}
use cali_go_stack.Handlers.Stream.Button.{
  Browser, disabled, watch, Reads, Busy, watch_keeps, watch_enables,
}
use cali_go_stack.Handlers.Onboarding.{
  Shown, Tick, timed_out, unreachable, answered, poll_start, poll_run, progress, same_shown, total,
  catch_up, todo_update_job, all_steps_shown, onboarding_failed_step,
}
use cali_go_stack.Handlers.Onboarding.Run.{ends, told, changes, last_of, ending, poll_run_reports}

-- The tick tells that the workflow is completed.
abbrev pub completes : Tick → Bool
completes timed_out = false
completes unreachable = false
completes (answered overall steps) = overall == "completed"

-- The last step is not running.
abbrev pub Early : Shown → Type 0
Early s = (s.phase == "finalize") ≡ false

All-append {ℓ} :
    {A : Type ℓ} (P : A → Type 0) (xs ys : List A) → All P xs → All P ys → All P (xs ++ ys)
All-append P [] ys p q = q
All-append P (x ∷ xs) ys p q = (p.0, All-append P xs ys p.1 q)

Busy-changes :
    (prev : Shown) (ss : List Shown) → All Early ss → All Busy (map progress (changes prev ss))
Busy-changes prev [] early = tt
Busy-changes prev (s ∷ ss) early =
    elim (Bool-cases (same_shown s prev))
      as (λ _. All Busy (map progress (changes prev (s ∷ ss)))) [
        | inl same ↦ rw (same) (Busy-changes prev ss early.1)
        | inr new ↦
            rw (new) (inl (s.step, total, s.phase, _, refl, early.0), Busy-changes s ss early.1)
      ]

Busy-ending :
    (s : Shown) (tick : Tick) → ends tick ≡ true → completes tick ≡ false → All Busy (ending s tick)
Busy-ending s timed_out over fails =
    (inl (0, 0, "idle", _, refl, refl), (inr ("workflow-timeout", _, refl, refl), tt))
Busy-ending s unreachable over fails = cc
Busy-ending s (answered overall steps) over fails =
    let (step, detail) = onboarding_failed_step steps in
    rw fails
      (inl (step, total, "error", _, refl, refl), (inr ("workflow-error", detail, refl, refl), tt))

-- The last frame of a run that is completed, behind the others.
ending_last :
    (fs : List Json) (s : Shown) (tick : Tick)
    → completes tick ≡ true
    → (gs : List Json) × (fs ++ ending s tick
        ≡ gs ++ todo_update_job "workflow-completed" "remote" "" "" false ∷ [])
ending_last fs s timed_out done = cc
ending_last fs s unreachable done = cc
ending_last fs s (answered overall steps) done =
    let missed = catch_up (total - suc s.step) (suc s.step) in
    let last = todo_update_job "workflow-completed" "remote" "" "" false in
    (
      fs ++ (missed ++ all_steps_shown ∷ []),
      rw (
        done,
        append_assoc fs (missed ++ all_steps_shown ∷ []) (last ∷ []),
        append_assoc missed (all_steps_shown ∷ []) (last ∷ []),
      ),
    )

module _ {S : Type 0} (st : EntityStore S) (c : Codec) (user : String) where
  -- A client whose button is disabled and whose stream shows every frame of one run of the
  -- onboarding, over any strategy, where encoding/json reads back each frame: if no answer before the
  -- end tells that the last step runs, the button is enabled again after a completed run,
  -- and after a failed run and after the timeout it still is disabled.
  pub button_after_run :
      (before after : List Tick) (tick : Tick) (s : S) (b : Browser)
      → All (λ t. ends t ≡ false) before
      → ends tick ≡ true
      → All Early (told before)
      → disabled b ≡ true
      → let p = poll_run (before ++ tick ∷ after) poll_start in
        All (Reads st c user) p.frames
        → disabled (watch st c user p.frames s b).0 ≡ not (completes tick)
  button_after_run before after tick s b waits over early busy reads =
      let published = (poll_run_reports before after tick waits over).1 in
      let shown = changes poll_start.last (told before) in
      let read = subst (All (Reads st c user)) published reads in
      ap (λ fs. disabled (watch st c user fs s b).0) published
      ∙ elim (Bool-cases (completes tick)) [
        | inl done ↦
            let (gs, same) =
              ending_last (map progress shown) (last_of poll_start.last shown) tick done in
            ap (λ fs. disabled (watch st c user fs s b).0) same
            ∙ watch_enables st c user gs s b (subst (All (Reads st c user)) same read)
            ∙ sym (ap not done)
        | inr fails ↦
            watch_keeps st c user _ s b
              (All-append Busy (map progress shown) _
                (Busy-changes poll_start.last (told before) early)
                (Busy-ending (last_of poll_start.last shown) tick over fails))
              read busy
            ∙ sym (ap not fails)
      ]
