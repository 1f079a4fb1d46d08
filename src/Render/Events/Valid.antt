-- ===== src/Render/Events/Valid.antt =====
-- app/services/render_job_runner.py: whatever the calls and however the tasks are interleaved, the
-- stored jobs fit their statuses.
use Prim.{Unit, tt}
use ctrlf_ai.Prelude.{ℕ, String, refl, Bool, Option, some, none, List, [], ◌∷◌, arith}
use ctrlf_ai.Floats.{Floats}
use ctrlf_ai.Render.Status.{queued, stored, normalize_job_status, normalize_to_enum}
use ctrlf_ai.Render.Jobs.{RenderJobEntity, update_status, update_render_spec}
use ctrlf_ai.Render.Jobs.Shape.{
  AreSound, IsSound, HasShape, with_render_spec-IsSound, with_status_queued-IsSound,
  AreSound-update, AreSound-save,
}
use ctrlf_ai.Render.Events.Calls.{Closed, step-P, all-IsAllowed}
use ctrlf_ai.Render.Sound.{resume-AreSound, update_error-AreSound}
use ctrlf_ai.Render.Pipeline.{Outcome, Runner}
use ctrlf_ai.Render.Runner.{init, spawn, new_job}
use ctrlf_ai.Render.Events.{Event, find_task, resumed, step, run}

module _ {F : Type 0} where
  new_job-IsSound :
      (now : ℕ) (k video script by : String)
      → let job : RenderJobEntity F = new_job now k video script by in
        IsSound (record job { status = stored job.status; updated_at = now })
  unfolding new_job stored normalize_job_status normalize_to_enum HasShape
  new_job-IsSound now k video script by = record {
    state = queued;
    named = refl;
    bounded = omega arith;
    shape = refl;
  }

  sound_jobs : Closed {F = F} (λ k. Unit) (λ w. AreSound w.jobs)
  unfolding spawn update_status update_render_spec
  sound_jobs = record {
    saved = λ now k video script by w a h.
        AreSound-save now (new_job now k video script by) w.jobs
          (new_job-IsSound now k video script by) h;
    spawned = λ by_spec k w a h. h;
    failed_with = λ now k code message w a h. update_error-AreSound now k code message w.jobs h;
    queued_again = λ now k message w a h.
        AreSound-update k _ w.jobs (λ job i. with_status_queued-IsSound now message job) h;
    given_spec = λ now k spec w a h.
        AreSound-update k _ w.jobs (λ job i. with_render_spec-IsSound now spec job i) h;
    stopped = λ k n w a h. h;
    fetches = λ waiting w h. h;
  }

  elim-AreSound {ℓ} :
      {A : Type ℓ} (o : Option A) (x : Runner F) (y : A → Runner F)
      → AreSound x.jobs
      → ((a : A) → AreSound (y a).jobs)
      → let w : Runner F = elim o [ none ↦ x | some a ↦ y a ] in AreSound w.jobs
  elim-AreSound none x y hx hy = hx
  elim-AreSound (some a) x y hx hy = hy a

  resumed-AreSound :
      (now n : ℕ) (outcome : Outcome F) (w : Runner F)
      → AreSound w.jobs
      → AreSound (resumed now n outcome w).jobs
  unfolding resumed
  resumed-AreSound now n outcome w h =
      elim-AreSound (find_task n w.tasks) _ _ h (λ task. resume-AreSound now outcome task w h)

module _ (fl : Floats) (sum : List fl.F → fl.F) where
  open fl use {F}

  run_from-AreSound :
      (es : List (Event F)) (w : Runner F) → AreSound w.jobs → AreSound (run fl sum es w).jobs
  unfolding run
  run_from-AreSound [] w h = h
  run_from-AreSound (e ∷ es) w h = run_from-AreSound es (step fl sum e w) (
      step-P fl sum (λ k. Unit) (λ w. AreSound w.jobs) sound_jobs e w
        (λ now n outcome q. resumed-AreSound now n outcome w h) (all-IsAllowed _ (λ k. tt) e) h)

  -- After any calls on a new runner, with its tasks interleaved in any way, each stored job has one
  -- of the four statuses and a progress of at most 100. A queued job is at 0; a processing one has a
  -- start time; a completed one is at 100 in the last step, with assets and an end time; a failed one
  -- has an error code, an error message and an end time.
  pub run-AreSound :
      (has_renderer : Bool) (es : List (Event F))
      → AreSound (run fl sum es (init has_renderer)).jobs
  run-AreSound has_renderer es = run_from-AreSound es (init has_renderer) tt
