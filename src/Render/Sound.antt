-- ===== src/Render/Sound.antt =====
-- app/services/render_job_runner.py: whatever happens to a runner, every stored job fits its status.
use ctrlf_ai.Prelude.{
  ℕ, ◌≤◌, String, Bool, true, false, not, ◌&&◌, Option, some, none, List, [], ◌∷◌, arith,
  if◌then◌else◌, subst, sym,
}
use ctrlf_ai.Prelude.Dict.{Dict}
use ctrlf_ai.Render.Status.{value, processing, completed}
use ctrlf_ai.Render.Steps.{
  RenderStep, validate_script, generate_tts, generate_subtitle, render_slides, compose_video,
  upload_assets, finalize, steps, get_step_progress,
}
use ctrlf_ai.Render.Jobs.{
  RenderJobEntity, get, update_status, update_assets, update_error, with_status, with_assets,
  has_render_spec,
}
use ctrlf_ai.Render.Jobs.Shape.{
  AreSound, with_error-IsSound, with_status_processing-IsSound, with_status_completed-IsSound,
  update-update, AreSound-update,
}
use ctrlf_ai.Render.Pipeline.{
  RenderedAssets, Point, created, starting, announcing, rendering, collecting, announcing_success,
  announcing_failure, Outcome, returned, storage_upload_error, raised, Task, Runner, finish, fail,
  fail_upload, rescue, next_step, begin, complete, call_back, continue_from, cancel_at, resume,
  assets_of, is_canceled,
}

get_step_progress-le : (step : RenderStep) → (get_step_progress step).0 ≤ 100
unfolding get_step_progress
get_step_progress-le validate_script = omega arith
get_step_progress-le generate_tts = omega arith
get_step_progress-le generate_subtitle = omega arith
get_step_progress-le render_slides = omega arith
get_step_progress-le compose_video = omega arith
get_step_progress-le upload_assets = omega arith
get_step_progress-le finalize = omega arith

module _ {F : Type 0} where
  pub update_error-AreSound :
      (now : ℕ) (k code message : String) (jobs : Dict (RenderJobEntity F))
      → AreSound jobs
      → AreSound (update_error now k code message jobs)
  unfolding update_error
  update_error-AreSound now k code message jobs h =
      AreSound-update k _ jobs (λ job. with_error-IsSound now code message job) h

  processing-AreSound :
      (now progress : ℕ) (k : String) (step : RenderStep) (message : String)
      (jobs : Dict (RenderJobEntity F))
      → progress ≤ 100
      → AreSound jobs
      → AreSound
          (update_status now k (value processing) (some step) (some progress) (some message) jobs)
  unfolding update_status
  processing-AreSound now progress k step message jobs p h =
      AreSound-update k _ jobs
        (λ job i. with_status_processing-IsSound now progress step message job p) h

  completed-AreSound :
      (now : ℕ) (k message : String) (r : RenderedAssets F) (jobs : Dict (RenderJobEntity F))
      → AreSound jobs
      → AreSound (
          update_status now k
            (value completed)
            (some finalize)
            (some 100)
            (some message)
            (update_assets now k (assets_of r) jobs))
  unfolding update_status update_assets
  completed-AreSound now k message r jobs h =
      subst AreSound
        (sym (update-update k (with_status now _ _ _ _) (with_assets now (assets_of r)) jobs))
        (AreSound-update k _ jobs
          (λ job i. with_status_completed-IsSound now message (assets_of r) job) h)

  -- The runner after the step of a task still has sound jobs.
  Keeps : Runner F × Option (Point F) → Type 0
  Keeps out = AreSound out.0.jobs

  if-Keeps :
      (b : Bool) (x y : Runner F × Option (Point F))
      → Keeps x
      → Keeps y
      → Keeps (if b then x else y)
  if-Keeps true x y hx hy = hx
  if-Keeps false x y hx hy = hy

  elim-Keeps {ℓ} :
      {A : Type ℓ} (o : Option A) (x : Runner F × Option (Point F))
      (y : A → Runner F × Option (Point F))
      → Keeps x
      → ((a : A) → Keeps (y a))
      → Keeps (elim o [ none ↦ x | some a ↦ y a ])
  elim-Keeps none x y hx hy = hx
  elim-Keeps (some a) x y hx hy = hy a

  at_await : (w : Runner F) (at : Option (Point F)) → AreSound w.jobs → Keeps (w, at)
  unfolding Keeps
  at_await w at h = h

  finish-Keeps : (k : String) (w : Runner F) → AreSound w.jobs → Keeps (finish k w)
  unfolding Keeps finish
  finish-Keeps k w h = h

  module _ (now : ℕ) (k : String) where
    fail-Keeps :
        (code message : String) (w : Runner F) → AreSound w.jobs → Keeps (fail now k code message w)
    unfolding fail
    fail-Keeps code message w h =
        let sound = update_error-AreSound now k code message w.jobs h in
        elim-Keeps (get k (update_error now k code message w.jobs)) _ _
          (finish-Keeps k (record w { jobs = update_error now k code message w.jobs }) sound)
          (λ job. unfold Keeps in sound)

    rescue-Keeps :
        (outcome : Outcome F) (go : RenderedAssets F → Runner F × Option (Point F)) (w : Runner F)
        → AreSound w.jobs
        → ((r : RenderedAssets F) → Keeps (go r))
        → Keeps (rescue now k outcome go w)
    unfolding rescue fail_upload
    rescue-Keeps (returned r) go w h g = g r
    rescue-Keeps (storage_upload_error key message) go w h g = fail-Keeps _ _ w h
    rescue-Keeps (raised type message) go w h g = fail-Keeps _ _ w h

    next_step-Keeps :
        (rest : List RenderStep) (w : Runner F) → AreSound w.jobs → Keeps (next_step now k rest w)
    unfolding next_step
    next_step-Keeps [] w h = unfold Keeps in h
    next_step-Keeps (step ∷ rest) w h =
        let sound = processing-AreSound now _ k step _ w.jobs (get_step_progress-le step) h in
        elim-Keeps (get k w.jobs) _ _ (fail-Keeps _ _ (record w { jobs = _ }) sound)
          (λ job. if-Keeps (is_canceled job) _ _ (finish-Keeps k w h) (at_await _ _ sound))

    begin-Keeps : (by_spec : Bool) (w : Runner F) → AreSound w.jobs → Keeps (begin by_spec now k w)
    unfolding begin
    begin-Keeps by_spec w h = elim-Keeps (get k w.jobs) _ _ (at_await w _ h) (λ job.
        if-Keeps (by_spec && not (has_render_spec job)) _ _
          (at_await _ _ (update_error-AreSound now k _ _ w.jobs h))
          (if-Keeps (is_canceled job) _ _ (at_await w _ h)
            (at_await _ _ (processing-AreSound now 0 k validate_script _ w.jobs (omega arith) h))))

    continue_from-Keeps :
        (at : Point F) (outcome : Outcome F) (w : Runner F)
        → AreSound w.jobs
        → Keeps (continue_from at now outcome k w)
    unfolding continue_from call_back complete
    continue_from-Keeps (created by_spec) outcome w h = begin-Keeps by_spec w h
    continue_from-Keeps starting (returned r) w h =
        if-Keeps w.has_renderer _ _ (next_step-Keeps steps w h) (fail-Keeps _ _ w h)
    continue_from-Keeps starting (storage_upload_error key message) w h = at_await w _ h
    continue_from-Keeps starting (raised type message) w h = at_await w _ h
    continue_from-Keeps (announcing rest) outcome w h =
        rescue-Keeps outcome _ w h (λ r. at_await w _ h)
    continue_from-Keeps (rendering rest) outcome w h =
        rescue-Keeps outcome _ w h (λ r. next_step-Keeps rest w h)
    continue_from-Keeps collecting outcome w h =
        rescue-Keeps outcome _ w h (λ r. at_await _ _ (completed-AreSound now k _ r w.jobs h))
    continue_from-Keeps (announcing_success rendered) outcome w h =
        rescue-Keeps outcome _ w h (λ r. finish-Keeps k (record w { callbacks = _ }) h)
    continue_from-Keeps announcing_failure outcome w h = finish-Keeps k w h

  cancel_at-Keeps :
      (at : Point F) (k : String) (w : Runner F) → AreSound w.jobs → Keeps (cancel_at at k w)
  unfolding cancel_at finish Keeps
  cancel_at-Keeps (created by_spec) k w h = h
  cancel_at-Keeps starting k w h = h
  cancel_at-Keeps (announcing rest) k w h = h
  cancel_at-Keeps (rendering rest) k w h = h
  cancel_at-Keeps collecting k w h = h
  cancel_at-Keeps (announcing_success r) k w h = h
  cancel_at-Keeps announcing_failure k w h = h

  pub resume-AreSound :
      (now : ℕ) (outcome : Outcome F) (task : Task F) (w : Runner F)
      → AreSound w.jobs
      → AreSound (resume now outcome task w).0.jobs
  unfolding resume Keeps
  resume-AreSound now outcome task w h =
      if-Keeps task.cancelled _ _ (cancel_at-Keeps task.at task.job_id w h)
        (continue_from-Keeps now task.job_id task.at outcome w h)
