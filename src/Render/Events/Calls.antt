-- ===== src/Render/Events/Calls.antt =====
-- app/services/render_job_runner.py: a predicate on runners that the ways in which the calls change a
-- runner keep is kept by the calls.
use Prim.{Unit, tt}
use ctrlf_ai.Prelude.{
  ℕ, String, ◌≡◌, refl, Bool, true, false, not, ◌&&◌, Option, some, none, List, if◌then◌else◌, ◌=ˢ◌,
}
use ctrlf_ai.Prelude.Dict.{lookup, remove}
use ctrlf_ai.Floats.{Floats}
use ctrlf_ai.Render.Status.{value, queued, processing}
use ctrlf_ai.Render.Spec.{RenderSpec}
use ctrlf_ai.Render.Jobs.{
  get, save, update_status, update_render_spec, update_error, get_active_by_video_id, is_active,
  has_render_spec,
}
use ctrlf_ai.Render.Pipeline.{Outcome, Runner}
use ctrlf_ai.Render.Runner.{
  Fetch, fetched, script_fetch_error, empty_render_spec_error, other_error, spawn, new_job,
  create_job_with_id, create_job, start_job, launch, refuse_start, start_fetched, retry_job,
  cancel_job, cancel_task, stop_task, has_begun,
}
use ctrlf_ai.Render.Script.{VideoScript}
use ctrlf_ai.Render.Events.{
  Event, create_with_id, create, start, fetch_ends, retry, cancel, resume_task, resumed, waits,
  step,
}

-- `A` tells the jobs that the calls are about.
pub record Closed {F : Type 0} (A : String → Type 0) (P : Runner F → Type 0) : Type 0 where
  pub saved :
      (now : ℕ) (k video script by : String) (w : Runner F)
      → A k
      → P w
      → P (record w { jobs = save now (new_job now k video script by) w.jobs })
  pub spawned : (by_spec : Bool) (k : String) (w : Runner F) → A k → P w → P (spawn by_spec k w)
  pub failed_with :
      (now : ℕ) (k code message : String) (w : Runner F)
      → A k
      → P w
      → P (record w { jobs = update_error now k code message w.jobs })
  pub queued_again :
      (now : ℕ) (k message : String) (w : Runner F)
      → A k
      → P w
      → P (record w {
        jobs = update_status now k (value queued) none (some 0) (some message) w.jobs;
      })
  pub given_spec :
      (now : ℕ) (k : String) (spec : RenderSpec F) (w : Runner F)
      → A k
      → P w
      → P (record w { jobs = update_render_spec now k spec w.jobs })
  pub stopped :
      (k : String) (n : ℕ) (w : Runner F)
      → A k
      → P w
      → P (record w { running = remove k w.running; tasks = cancel_task n w.tasks })
  pub fetches : (waiting : List String) (w : Runner F) → P w → P (record w { fetching = waiting })

module _ {F : Type 0} (A : String → Type 0) where
  -- The job of a call is one of these.
  unfoldable pub IsAllowed : Event F → Type 0
  IsAllowed (create_with_id now k video script) = A k
  IsAllowed (create now k video script_id script by) = A k
  IsAllowed (start k) = A k
  IsAllowed (fetch_ends now k script fetch) = A k
  IsAllowed (retry now k) = A k
  IsAllowed (cancel now k) = A k
  IsAllowed (resume_task now n outcome) = Unit

  pub all-IsAllowed : ((k : String) → A k) → (e : Event F) → IsAllowed e
  unfolding IsAllowed
  all-IsAllowed all (create_with_id now k video script) = all k
  all-IsAllowed all (create now k video script_id script by) = all k
  all-IsAllowed all (start k) = all k
  all-IsAllowed all (fetch_ends now k script fetch) = all k
  all-IsAllowed all (retry now k) = all k
  all-IsAllowed all (cancel now k) = all k
  all-IsAllowed all (resume_task now n outcome) = tt

module _ (fl : Floats) (sum : List fl.F → fl.F) (A : String → Type 0) (P : Runner fl.F → Type 0)
    (c : Closed A P) where
  open fl use {F}

  -- The predicate holds after the call, whatever its answer.
  Keeps {ℓ} : {R : Type ℓ} → Runner F × R → Type 0
  Keeps out = P out.0

  if-Keeps {ℓ} :
      {R : Type ℓ} (b : Bool) (x y : Runner F × R) → Keeps x → Keeps y → Keeps (if b then x else y)
  if-Keeps true x y hx hy = hx
  if-Keeps false x y hx hy = hy

  elim-Keeps {ℓ κ} :
      {R : Type ℓ} {A : Type κ} (o : Option A) (x : Runner F × R) (y : A → Runner F × R)
      → Keeps x
      → ((a : A) → Keeps (y a))
      → Keeps {R = R} (elim o [ none ↦ x | some a ↦ y a ])
  elim-Keeps none x y hx hy = hx
  elim-Keeps (some a) x y hx hy = hy a

  pub elim-P {ℓ} :
      {A : Type ℓ} (o : Option A) (x : Runner F) (y : A → Runner F)
      → P x
      → ((a : A) → P (y a))
      → let w : Runner F = elim o [ none ↦ x | some a ↦ y a ] in P w
  elim-P none x y hx hy = hx
  elim-P (some a) x y hx hy = hy a

  if-P : (b : Bool) (x y : Runner F) → P x → P y → P (if b then x else y)
  if-P true x y hx hy = hx
  if-P false x y hx hy = hy

  answer {ℓ} : {R : Type ℓ} (w : Runner F) (r : R) → P w → Keeps (w, r)
  unfolding Keeps
  answer w r h = h

  stop_task-P : (k : String) (w : Runner F) → A k → P w → P (stop_task k w)
  unfolding stop_task
  stop_task-P k w a h = elim-P (lookup k w.running) _ _ h (λ n. c.stopped k n w a h)

  create_job_with_id-Keeps :
      (now : ℕ) (k video script : String) (w : Runner F)
      → A k
      → P w
      → Keeps (create_job_with_id now k video script w)
  unfolding create_job_with_id
  create_job_with_id-Keeps now k video script w a h =
      elim-Keeps (get k w.jobs) _ _ (answer _ _ (c.saved now k video script "backend" w a h))
        (λ job. answer w _ h)

  create_job-Keeps :
      (now : ℕ) (k video script_id : String) (script : VideoScript F) (by : String) (w : Runner F)
      → A k
      → P w
      → Keeps (create_job now k video script_id script by w)
  unfolding create_job
  create_job-Keeps now k video script_id script by w a h =
      if-Keeps (not (script.video_id =ˢ video)) _ _ (answer w _ h) (
        elim-Keeps (get_active_by_video_id video w.jobs) _ _
          (answer _ _ (c.spawned false k _ a (c.saved now k video script_id by w a h)))
          (λ job. answer w _ h))

  start_job-Keeps : (k : String) (w : Runner F) → A k → P w → Keeps (start_job k w)
  unfolding start_job launch
  start_job-Keeps k w a h = elim-Keeps (get k w.jobs) _ _ (answer w _ h) (λ job.
      if-Keeps (has_render_spec job && has_begun job) _ _ (answer w _ h) (
        if-Keeps (has_render_spec job) _ _ (answer _ _ (c.spawned true k w a h))
          (answer _ _ (c.fetches _ w h))))

  retry_job-Keeps : (now : ℕ) (k : String) (w : Runner F) → A k → P w → Keeps (retry_job now k w)
  unfolding retry_job update_status
  retry_job-Keeps now k w a h = elim-Keeps (get k w.jobs) _ _ (answer w _ h) (λ job.
      if-Keeps (not (has_render_spec job)) _ _ (answer w _ h) (
        if-Keeps (job.status =ˢ value processing) _ _ (answer w _ h)
          (answer _ _ (c.spawned true k _ a (c.queued_again now k _ w a h)))))

  cancel_job-Keeps : (now : ℕ) (k : String) (w : Runner F) → A k → P w → Keeps (cancel_job now k w)
  unfolding cancel_job
  cancel_job-Keeps now k w a h = elim-Keeps (get k w.jobs) _ _ (answer w _ h) (λ job.
      if-Keeps (is_active job) _ _ (answer _ _ (stop_task-P k _ a (c.failed_with now k _ _ w a h)))
        (answer w _ h))

  start_fetched-Keeps :
      (now : ℕ) (k script : String) (fetch : Fetch F) (w : Runner F)
      → A k
      → P w
      → Keeps (start_fetched fl sum now k script fetch w)
  unfolding start_fetched launch refuse_start update_render_spec
  start_fetched-Keeps now k script (fetched spec) w a h =
      answer _ _ (c.spawned true k _ a (c.given_spec now k _ w a h))
  start_fetched-Keeps now k script (script_fetch_error code message) w a h =
      answer _ _ (c.failed_with now k _ _ w a h)
  start_fetched-Keeps now k script empty_render_spec_error w a h =
      answer _ _ (c.failed_with now k _ _ w a h)
  start_fetched-Keeps now k script other_error w a h = answer w _ h

  -- An event keeps the predicate, if it keeps it where it is the step of a task.
  pub step-P :
      (e : Event F) (w : Runner F)
      → ((now n : ℕ) (outcome : Outcome F)
          → e ≡ resume_task now n outcome
          → P (resumed now n outcome w))
      → IsAllowed A e
      → P w
      → P (step fl sum e w)
  unfolding step Keeps IsAllowed
  step-P (create_with_id now k video script) w r a h =
      create_job_with_id-Keeps now k video script w a h
  step-P (create now k video script_id script by) w r a h =
      create_job-Keeps now k video script_id script by w a h
  step-P (start k) w r a h = start_job-Keeps k w a h
  step-P (fetch_ends now k script fetch) w r a h =
      if-P (waits k w.fetching) _ _ (start_fetched-Keeps now k script fetch _ a (c.fetches _ w h)) h
  step-P (retry now k) w r a h = retry_job-Keeps now k w a h
  step-P (cancel now k) w r a h = cancel_job-Keeps now k w a h
  step-P (resume_task now m outcome) w r a h = r now m outcome refl
