-- ===== src/Render/Pipeline/Settled.antt =====
-- app/services/render_job_runner.py: what the status of a job is while its task waits, where nothing
-- else touches the job.
use ctrlf_ai.Prelude.{ℕ, String, ◌≡◌, refl, false, Option, some, none, List, [], ◌∷◌, ◌⊎◌, inl, inr}
use ctrlf_ai.Render.Status.{
  value, processing, completed, failed, stored, normalize_job_status, normalize_to_enum,
}
use ctrlf_ai.Render.Steps.{RenderStep, finalize, get_step_progress}
use ctrlf_ai.Render.Jobs.{
  RenderJobEntity, get, with_status, with_assets, with_error, update_status, update_assets,
  update_error,
}
use ctrlf_ai.Render.Pipeline.{
  RenderedAssets, Point, created, starting, announcing, rendering, collecting, announcing_success,
  announcing_failure, Outcome, returned, storage_upload_error, raised, Runner, finish, fail,
  fail_upload, rescue, next_step, complete, call_back, continue_from, assets_of, is_canceled,
}
use ctrlf_ai.Render.Pipeline.Moves.{get-update_self}

-- COMPLETED or FAILED
abbrev pub IsFinal : String → Type 0
IsFinal status = (status ≡ value completed) ⊎ (status ≡ value failed)

module _ {F : Type 0} where
  processing_not_canceled :
      (job : RenderJobEntity F) → job.status ≡ value processing → is_canceled job ≡ false
  unfolding is_canceled
  processing_not_canceled job e = rw (is_canceled, e) refl

  pub processing_named :
      (now : ℕ) (step : Option RenderStep) (progress : Option ℕ) (message : Option String)
      (job : RenderJobEntity F)
      → (with_status now (value processing) step progress message job).status ≡ value processing
  unfolding with_status stored normalize_job_status normalize_to_enum
  processing_named now step progress message job = refl

  completed_named :
      (now : ℕ) (step : Option RenderStep) (progress : Option ℕ) (message : Option String)
      (job : RenderJobEntity F)
      → (with_status now (value completed) step progress message job).status ≡ value completed
  unfolding with_status stored normalize_job_status normalize_to_enum
  completed_named now step progress message job = refl

  -- What the job's status is while its task waits there
  unfoldable pub Fits : Point F → String → Type 0
  Fits (created by_spec) status = ⊥
  Fits starting status = ⊥
  Fits (announcing rest) status = status ≡ value processing
  Fits (rendering rest) status = status ≡ value processing
  Fits collecting status = status ≡ value processing
  Fits (announcing_success rendered) status = status ≡ value completed
  Fits announcing_failure status = status ≡ value failed

  pub record HasJob (k : String) (P : String → Type 0) (w : Runner F) : Type 0 where
    pub job : RenderJobEntity F
    pub found : get k w.jobs ≡ some job
    pub fits : P job.status

  abbrev pub IsSettled : String → Runner F → Option (Point F) → Type 0
  IsSettled k w none = HasJob k IsFinal w
  IsSettled k w (some at) = HasJob k (Fits at) w

  unfoldable pub Settles : String → Runner F × Option (Point F) → Type 0
  Settles k out = IsSettled k out.0 out.1

  module _ (now : ℕ) (k : String) where
    pub fail-Settles :
        (code message : String) (w : Runner F) (job : RenderJobEntity F)
        → get k w.jobs ≡ some job
        → Settles k (fail now k code message w)
    unfolding fail update_error Settles Fits
    fail-Settles code message w job found =
        let e = get-update_self k (with_error now code message) job w.jobs found in
        rw (fail, e)
          (record {
            job = with_error now code message job;
            found = e;
            fits = unfold with_error in refl;
          })

    rescue-Settles :
        (outcome : Outcome F) (go : RenderedAssets F → Runner F × Option (Point F)) (w : Runner F)
        (job : RenderJobEntity F)
        → get k w.jobs ≡ some job
        → ((r : RenderedAssets F) → Settles k (go r))
        → Settles k (rescue now k outcome go w)
    unfolding rescue fail_upload
    rescue-Settles (returned r) go w job found g = g r
    rescue-Settles (storage_upload_error key message) go w job found g =
        fail-Settles _ _ w job found
    rescue-Settles (raised type message) go w job found g = fail-Settles _ _ w job found

    pub next_step-Settles :
        (rest : List RenderStep) (w : Runner F) (job : RenderJobEntity F)
        → get k w.jobs ≡ some job
        → job.status ≡ value processing
        → Settles k (next_step now k rest w)
    unfolding next_step Settles Fits update_status
    next_step-Settles [] w job found working = record { job = job; found = found; fits = working }
    next_step-Settles (step ∷ rest) w job found working =
        let e =
          get-update_self k
            (with_status now (value processing) (some step) (some (get_step_progress step).0)
              (some (get_step_progress step).1))
            job w.jobs found in
        rw (next_step, found, processing_not_canceled job working)
          (record {
            job =
                with_status now (value processing) (some step) (some (get_step_progress step).0)
                  (some (get_step_progress step).1) job;
            found = e;
            fits = processing_named now _ _ _ job;
          })

    complete-Settles :
        (r : RenderedAssets F) (w : Runner F) (job : RenderJobEntity F)
        → get k w.jobs ≡ some job
        → Settles k (complete now k r w)
    unfolding complete Settles Fits update_status update_assets
    complete-Settles r w job found = record {
      job =
          with_status now (value completed) (some finalize) (some 100) (some "렌더링 완료!")
            (with_assets now (assets_of r) job);
      found =
          get-update_self k
            (with_status now (value completed) (some finalize) (some 100) (some "렌더링 완료!"))
            (with_assets now (assets_of r) job) _
            (get-update_self k (with_assets now (assets_of r)) job w.jobs found);
      fits = completed_named now _ _ _ (with_assets now (assets_of r) job);
    }

    finish-Settles :
        (w : Runner F) (job : RenderJobEntity F)
        → get k w.jobs ≡ some job
        → IsFinal job.status
        → Settles k (finish k w)
    unfolding finish Settles
    finish-Settles w job found final = record { job = job; found = found; fits = final }

    pub continue_from-Settles :
        (at : Point F) (outcome : Outcome F) (w : Runner F)
        → HasJob k (Fits at) w
        → Settles k (continue_from at now outcome k w)
    unfolding continue_from call_back Fits
    continue_from-Settles (created by_spec) outcome w h = absurd h.fits
    continue_from-Settles starting outcome w h = absurd h.fits
    continue_from-Settles (announcing rest) outcome w h =
        rescue-Settles outcome _ w h.job h.found
          (λ r. unfold Settles Fits in record { job = h.job; found = h.found; fits = h.fits })
    continue_from-Settles (rendering rest) outcome w h =
        rescue-Settles outcome _ w h.job h.found
          (λ r. next_step-Settles rest w h.job h.found h.fits)
    continue_from-Settles collecting outcome w h =
        rescue-Settles outcome _ w h.job h.found (λ r. complete-Settles r w h.job h.found)
    continue_from-Settles (announcing_success rendered) outcome w h =
        rescue-Settles outcome _ w h.job h.found
          (λ r. finish-Settles (record w { callbacks = _ }) h.job h.found (inl h.fits))
    continue_from-Settles announcing_failure outcome w h =
        finish-Settles w h.job h.found (inr h.fits)
