-- ===== src/Render/Events/Ends.antt =====
-- app/services/render_job_runner.py: every task ends, whatever the calls and the other tasks do in
-- between, because each await brings it nearer to its end.
use Prim.{Unit, tt}
use ctrlf_ai.Prelude.{
  ℕ, suc, ◌-◌, ◌<◌, ◌≤◌, ◌≡◌, ◌≢◌, refl, ap, ◌⊎◌, inl, inr, Bool, false, none, List, [], ◌∷◌, arith,
  if◌then◌else◌, ◌==◌, Bool-cases,
}
use ctrlf_ai.Floats.{Floats}
use ctrlf_ai.Render.Events.Calls.{step-P, all-IsAllowed}
use ctrlf_ai.Render.Pipeline.{Outcome, Runner}
use ctrlf_ai.Render.Events.Within.{
  HasLeft-none, IsWithin, IsWithin-closed, resumed_other, resumed_self, begun_closed, resumed_begun,
  IsWithin-le, resumed_any,
}
use ctrlf_ai.Render.Runner.{init}
use ctrlf_ai.Render.Events.{
  Event, create_with_id, create, start, fetch_ends, retry, cancel, resume_task, find_task, step,
  run,
}

module _ {F : Type 0} (n : ℕ) where
  -- Whether the event is a step of the task of that number
  unfoldable pub is_step : Event F → Bool
  is_step (resume_task now m outcome) = m == n
  is_step (create_with_id now k video script) = false
  is_step (create now k video script_id script by) = false
  is_step (start k) = false
  is_step (fetch_ends now k script fetch) = false
  is_step (retry now k) = false
  is_step (cancel now k) = false

  unfoldable pub steps_of : List (Event F) → ℕ
  unfolding is_step
  steps_of [] = 0
  steps_of (e ∷ es) = let rest = steps_of es in if is_step e then suc rest else rest

  IsOther : Event F → Type 0
  IsOther e =
      (is_step e ≡ false)
      × ((now m : ℕ) (outcome : Outcome F) → e ≡ resume_task now m outcome → m ≢ n)

  is_step-cases :
      (e : Event F)
      → ((now : ℕ) × (outcome : Outcome F) × (e ≡ resume_task now n outcome)) ⊎ IsOther e
  unfolding is_step IsOther
  is_step-cases (create_with_id now k video script) = inr (refl, λ t m o q. cc)
  is_step-cases (create now k video script_id script by) = inr (refl, λ t m o q. cc)
  is_step-cases (start k) = inr (refl, λ t m o q. cc)
  is_step-cases (fetch_ends now k script fetch) = inr (refl, λ t m o q. cc)
  is_step-cases (retry now k) = inr (refl, λ t m o q. cc)
  is_step-cases (cancel now k) = inr (refl, λ t m o q. cc)
  is_step-cases (resume_task now m outcome) = elim (Bool-cases (m == n)) [
    | inl e ↦ inl (now, outcome, ap (λ x. resume_task now x outcome) (ground (arith, e)))
    | inr e ↦ inr (e, λ t l o q r. ground (arith, e))
  ]

module _ (fl : Floats) (sum : List fl.F → fl.F) (n : ℕ) where
  open fl use {F}

  step_begun : (e : Event F) (w : Runner F) → n < w.next_task → n < (step fl sum e w).next_task
  step_begun e w p =
      step-P fl sum (λ k. Unit) (λ w. n < w.next_task) (begun_closed n) e w
        (λ now m outcome q. resumed_begun n now m outcome w p) (all-IsAllowed _ (λ k. tt) e) p

  step_other :
      (b : ℕ) (e : Event F) (w : Runner F)
      → IsOther n e
      → IsWithin n b w
      → IsWithin n b (step fl sum e w)
  unfolding IsOther
  step_other b e w o h =
      step-P fl sum (λ k. Unit) (IsWithin n b) (IsWithin-closed n b) e w
        (λ now m outcome q. resumed_other n now m b outcome w (o.1 now m outcome q) h)
        (all-IsAllowed _ (λ k. tt) e) h

  step-IsWithin :
      (b : ℕ) (e : Event F) (w : Runner F) (now : ℕ) (outcome : Outcome F)
      → e ≡ resume_task now n outcome
      → n < w.next_task
      → IsWithin n b w
      → IsWithin n (b - 1) (step fl sum e w)
  unfolding step
  step-IsWithin b e w now outcome q p h =
      rw q
        (resumed_self n now (b - 1) outcome w p (IsWithin-le n b (suc (b - 1)) w p (omega arith) h))

  step-counted :
      (b : ℕ) (e : Event F) (es : List (Event F)) → b ≤ steps_of n (e ∷ es) → b - 1 ≤ steps_of n es
  unfolding steps_of
  step-counted b e es le = ground arith

  other-counted :
      (b : ℕ) (e : Event F) (es : List (Event F))
      → IsOther n e
      → b ≤ steps_of n (e ∷ es)
      → b ≤ steps_of n es
  unfolding steps_of IsOther
  other-counted b e es o le = ground (arith, o.0)

  run-IsWithin :
      (b : ℕ) (es : List (Event F)) (w : Runner F)
      → n < w.next_task
      → b ≤ steps_of n es
      → IsWithin n b w
      → IsWithin n 0 (run fl sum es w)
  unfolding run steps_of
  run-IsWithin b [] w p le h = IsWithin-le n b 0 w p le h
  run-IsWithin b (e ∷ es) w p le h = elim (is_step-cases n e) [
    | inl (now, outcome, q) ↦
        run-IsWithin (b - 1) es (step fl sum e w) (step_begun e w p) (step-counted b e es le)
          (step-IsWithin b e w now outcome q p h)
    | inr o ↦
        run-IsWithin b es (step fl sum e w) (step_begun e w p) (other-counted b e es o le)
          (step_other b e w o h)
  ]

  init-IsWithin : (has_renderer : Bool) → IsWithin {F = F} n 19 (init has_renderer)
  init-IsWithin has_renderer = record { spawned = inr (omega arith); left = tt }

  run_from-IsWithin :
      (es : List (Event F)) (w : Runner F) → IsWithin n 19 w → IsWithin n 19 (run fl sum es w)
  unfolding run
  run_from-IsWithin [] w h = h
  run_from-IsWithin (e ∷ es) w h = run_from-IsWithin es (step fl sum e w) (
      step-P fl sum (λ k. Unit) (IsWithin n 19) (IsWithin-closed n 19) e w
        (λ now m outcome q. resumed_any n now m 19 outcome w h) (all-IsAllowed _ (λ k. tt) e) h)

  -- Every task of a runner ends: once the task of a number has been started, by any calls at all,
  -- it is over when 19 of its steps have been taken, whatever happens to the runner in between and
  -- however the awaits of the task end.
  pub task_ends :
      (has_renderer : Bool) (es later : List (Event F))
      → n < (run fl sum es (init has_renderer)).next_task
      → 19 ≤ steps_of n later
      → find_task n (run fl sum later (run fl sum es (init has_renderer))).tasks ≡ none
  task_ends has_renderer es later p le =
      let w = run fl sum es (init has_renderer) in
      HasLeft-none n (run fl sum later w).tasks
        (run-IsWithin 19 later w p le
          (run_from-IsWithin es (init has_renderer) (init-IsWithin has_renderer))).left
