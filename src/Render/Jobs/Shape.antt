-- ===== src/Render/Jobs/Shape.antt =====
-- app/repositories/render_job_repository.py: what holds of a stored job by its status, and that
-- every kind of update the runner makes keeps it.
use Prim.{Unit, tt}
use ctrlf_ai.Prelude.{
  ℕ, ◌≤◌, String, ◌≡◌, refl, Option, some, none, [], ◌∷◌, Bool, true, false, arith, Bool-cases, inl,
  inr, All, All-append, if◌then◌else◌, ◌=ˢ◌,
}
use ctrlf_ai.Prelude.Dict.{Dict, remove}
use ctrlf_ai.Render.Status.{
  RenderJobStatus, queued, processing, completed, failed, value, stored, normalize_job_status,
  normalize_to_enum,
}
use ctrlf_ai.Render.Steps.{RenderStep, finalize}
use ctrlf_ai.Render.Spec.{RenderSpec}
use ctrlf_ai.Render.Jobs.{
  Assets, RenderJobEntity, save, update, with_status, with_assets, with_error, with_render_spec,
}

abbrev pub IsPresent {ℓ} : {A : Type ℓ} → Option A → Type 0
IsPresent none = ⊥
IsPresent (some a) = Unit

module _ {F : Type 0} where
  -- What a job has at each status.
  unfoldable pub HasShape : RenderJobStatus → RenderJobEntity F → Type 0
  HasShape queued job = job.progress ≡ 0
  HasShape processing job = IsPresent job.started_at
  HasShape completed job =
      (job.progress ≡ 100)
      × (job.step ≡ some finalize)
      × IsPresent job.assets
      × IsPresent job.finished_at
  HasShape failed job =
      IsPresent job.error_code × IsPresent job.error_message × IsPresent job.finished_at

  -- The status is one of the four, the progress a percentage, and the rest fits the status.
  pub record IsSound (job : RenderJobEntity F) : Type 0 where
    pub state : RenderJobStatus
    pub named : job.status ≡ value state
    pub bounded : job.progress ≤ 100
    pub shape : HasShape state job

  abbrev pub AreSound : Dict (RenderJobEntity F) → Type 0
  AreSound = All (λ row. IsSound row.1)

  if-AreSound :
      (b : Bool) (x y : Dict (RenderJobEntity F))
      → AreSound x
      → AreSound y
      → AreSound (if b then x else y)
  if-AreSound true x y hx hy = hx
  if-AreSound false x y hx hy = hy

  pub with_error-IsSound :
      (now : ℕ) (code message : String) (job : RenderJobEntity F)
      → IsSound job
      → IsSound (with_error now code message job)
  unfolding with_error HasShape
  with_error-IsSound now code message job h = record {
    state = failed;
    named = refl;
    bounded = h.bounded;
    shape = (tt, tt, tt);
  }

  HasShape-with_render_spec :
      (s : RenderJobStatus) (now : ℕ) (spec : RenderSpec F) (job : RenderJobEntity F)
      → HasShape s job
      → HasShape s (with_render_spec now spec job)
  unfolding HasShape with_render_spec
  HasShape-with_render_spec queued now spec job h = h
  HasShape-with_render_spec processing now spec job h = h
  HasShape-with_render_spec completed now spec job h = h
  HasShape-with_render_spec failed now spec job h = h

  pub with_render_spec-IsSound :
      (now : ℕ) (spec : RenderSpec F) (job : RenderJobEntity F)
      → IsSound job
      → IsSound (with_render_spec now spec job)
  with_render_spec-IsSound now spec job h = record {
    state = h.state;
    named = unfold with_render_spec in h.named;
    bounded = unfold with_render_spec in h.bounded;
    shape = HasShape-with_render_spec h.state now spec job h.shape;
  }

  pub with_status_processing-IsSound :
      (now progress : ℕ) (step : RenderStep) (message : String) (job : RenderJobEntity F)
      → progress ≤ 100
      → IsSound (with_status now (value processing) (some step) (some progress) (some message) job)
  unfolding with_status stored normalize_job_status normalize_to_enum HasShape
  with_status_processing-IsSound now progress step message job p = record {
    state = processing;
    named = refl;
    bounded = p;
    shape = tt;
  }

  pub with_status_queued-IsSound :
      (now : ℕ) (message : String) (job : RenderJobEntity F)
      → IsSound (with_status now (value queued) none (some 0) (some message) job)
  unfolding with_status stored normalize_job_status normalize_to_enum HasShape
  with_status_queued-IsSound now message job = record {
    state = queued;
    named = refl;
    bounded = omega arith;
    shape = refl;
  }

  pub with_status_completed-IsSound :
      (now : ℕ) (message : String) (assets : Assets F) (job : RenderJobEntity F)
      → IsSound (
          with_status now
            (value completed)
            (some finalize)
            (some 100)
            (some message)
            (with_assets now assets job))
  unfolding with_status stored normalize_job_status normalize_to_enum HasShape with_assets
  with_status_completed-IsSound now message assets job = record {
    state = completed;
    named = refl;
    bounded = omega arith;
    shape = (refl, refl, tt, tt);
  }

  -- Two updates of one row are one.
  pub update-update :
      (k : String) (f g : RenderJobEntity F → RenderJobEntity F) (jobs : Dict (RenderJobEntity F))
      → update k f (update k g jobs) ≡ update k (λ job. f (g job)) jobs
  unfolding update
  update-update k f g [] = refl
  update-update k f g ((key, job) ∷ jobs) = elim (Bool-cases (key =ˢ k)) [
    | inl e ↦ simp (update, e, update-update k f g jobs)
    | inr e ↦ simp (update, e, update-update k f g jobs)
  ]

  pub AreSound-update :
      (k : String) (f : RenderJobEntity F → RenderJobEntity F) (jobs : Dict (RenderJobEntity F))
      → ((job : RenderJobEntity F) → IsSound job → IsSound (f job))
      → AreSound jobs
      → AreSound (update k f jobs)
  unfolding update
  AreSound-update k f [] sound h = tt
  AreSound-update k f ((key, job) ∷ jobs) sound h =
      if-AreSound (key =ˢ k) _ _ (sound job h.0, AreSound-update k f jobs sound h.1)
        (h.0, AreSound-update k f jobs sound h.1)

  AreSound-remove :
      (k : String) (jobs : Dict (RenderJobEntity F)) → AreSound jobs → AreSound (remove k jobs)
  unfolding remove
  AreSound-remove k [] h = tt
  AreSound-remove k ((key, job) ∷ jobs) h =
      if-AreSound (key =ˢ k) _ _ (AreSound-remove k jobs h.1) (h.0, AreSound-remove k jobs h.1)

  pub AreSound-save :
      (now : ℕ) (job : RenderJobEntity F) (jobs : Dict (RenderJobEntity F))
      → IsSound (record job { status = stored job.status; updated_at = now })
      → AreSound jobs
      → AreSound (save now job jobs)
  unfolding save
  AreSound-save now job jobs sound h =
      All-append _ (remove job.job_id jobs) _ (AreSound-remove job.job_id jobs h) (sound, tt)
