-- ===== src/Render/Pipeline.antt =====
-- app/services/render_job_runner.py: `_execute_job` and `_execute_job_with_spec`, which differ in how
-- they begin. A task runs from one `await` to the next; a `Point` is the await at which it waits,
-- and an `Outcome` is how that await ends. Whatever else runs in between changes the runner.
pub mod Alone
pub mod Moves
pub mod Settled
use Prim.Native.String
use ctrlf_ai.Prelude.{
  ℕ, zero, suc, String, Bool, true, false, ◌&&◌, not, Option, some, none, List, [], ◌∷◌, ◌++◌,
  if◌then◌else◌, ◌=ˢ◌,
}
use ctrlf_ai.Prelude.Dict.{Dict, remove}
use ctrlf_ai.Render.Status.{value, processing, completed, failed}
use ctrlf_ai.Render.Steps.{RenderStep, validate_script, finalize, get_step_progress, steps}
use ctrlf_ai.Render.Jobs.{
  Assets, RenderJobEntity, has_render_spec, get, update_status, update_assets, update_error,
}

pub record RenderedAssets (F : Type 0) : Type 0 where
  pub mp4_path : String
  pub thumbnail_path : String
  pub subtitle_path : String
  pub duration_sec : F

pub data Point (F : Type 0) : Type 0 where
  -- not yet started; whether it is `_execute_job_with_spec`
  created : Bool → Point F
  -- the first notification
  starting : Point F
  -- the notification of a step, and the step itself; with the steps that are left
  announcing rendering : List RenderStep → Point F
  -- `get_rendered_assets`
  collecting : Point F
  -- the notifications at the end
  announcing_success : RenderedAssets F → Point F
  announcing_failure : Point F

-- The assets that `returned` carries are the value of `get_rendered_assets`; no other await has a
-- value that is looked at.
pub data Outcome (F : Type 0) : Type 0 where
  returned : RenderedAssets F → Outcome F
  storage_upload_error : String → String → Outcome F
  raised : String → String → Outcome F

pub record Task (F : Type 0) : Type 0 where
  pub job_id : String
  pub cancelled : Bool
  pub at : Point F

-- `_notify_job_complete`, which sends the duration as an int
pub record Callback (F : Type 0) : Type 0 where
  pub job_id : String
  pub video_url : String
  pub duration : F

pub record Runner (F : Type 0) : Type 0 where
  pub jobs : Dict (RenderJobEntity F)
  -- `_running_jobs`, from a job to the number of its task
  pub running : Dict ℕ
  pub tasks : List (ℕ × Task F)
  pub next_task : ℕ
  -- the calls of `start_job` that wait for the render-spec of a job
  pub fetching : List String
  pub has_renderer : Bool
  pub callbacks : List (Callback F)

-- `s[:n]`
unfoldable pub prefix : ℕ → String → String
prefix zero s = ""
prefix (suc n) String.[] = ""
prefix (suc n) (String.◌∷◌ c s) = String.◌∷◌ c (prefix n s)

module _ {F : Type 0} where
  -- `job.status == "FAILED" and job.error_code == "CANCELED"`
  unfoldable pub is_canceled : RenderJobEntity F → Bool
  is_canceled job =
      job.status =ˢ value failed
      && (elim job.error_code [ none ↦ false | some code ↦ code =ˢ "CANCELED" ])

  -- The `finally` block; the task is over.
  unfoldable pub finish : String → Runner F → Runner F × Option (Point F)
  finish job_id w = (record w { running = remove job_id w.running }, none)

  -- An exception handler: the error is stored, and told to the watchers of a job that is there.
  unfoldable pub fail : ℕ → String → String → String → Runner F → Runner F × Option (Point F)
  unfolding finish
  fail now job_id error_code error_message w =
      let jobs = update_error now job_id error_code error_message w.jobs in
      elim (get job_id jobs) [
        | none ↦ finish job_id (record w { jobs = jobs })
        | some job ↦ (record w { jobs = jobs }, some announcing_failure)
      ]

  unfoldable pub fail_upload : ℕ → String → String → String → Runner F → Runner F × Option (Point F)
  unfolding fail prefix
  fail_upload now job_id key message w =
      fail now job_id "STORAGE_UPLOAD_FAILED"
        (prefix 500 (
          String.◌++◌ "Storage upload failed for key '"
            (String.◌++◌ key (String.◌++◌ "': " message))))
        w

  -- What an exception inside the `try` leads to
  unfoldable pub rescue :
      ℕ
      → String
      → Outcome F
      → (RenderedAssets F → Runner F × Option (Point F))
      → Runner F
      → Runner F × Option (Point F)
  unfolding fail fail_upload
  rescue now job_id (returned rendered) continue w = continue rendered
  rescue now job_id (storage_upload_error key message) continue w =
      fail_upload now job_id key message w
  rescue now job_id (raised type message) continue w = fail now job_id type (prefix 500 message) w

  -- The head of the loop over the steps. Where the job is gone, `job.video_id` raises.
  unfoldable pub next_step : ℕ → String → List RenderStep → Runner F → Runner F × Option (Point F)
  unfolding is_canceled finish fail
  next_step now job_id [] w = (w, some collecting)
  next_step now job_id (step ∷ rest) w =
      let (progress, message) = get_step_progress step in
      let jobs =
        update_status now job_id (value processing) (some step) (some progress) (some message)
          w.jobs in
      elim (get job_id w.jobs) [
        | none ↦
            fail now job_id "AttributeError" "'NoneType' object has no attribute 'video_id'"
              (record w { jobs = jobs })
        | some job ↦
            if is_canceled job
            then finish job_id w
            else (record w { jobs = jobs }, some (announcing rest))
      ]

  -- What comes before the `try`
  unfoldable pub begin : Bool → ℕ → String → Runner F → Runner F × Option (Point F)
  unfolding is_canceled
  begin by_spec now job_id w = elim (get job_id w.jobs) [
    | none ↦ (w, none)
    | some job ↦
        if by_spec && not (has_render_spec job)
        then (
          record w {
            jobs = update_error now job_id "NO_RENDER_SPEC" "No render-spec snapshot found" w.jobs;
          },
          none,
        )
        else if is_canceled job
        then (w, none)
        else (
          record w {
            jobs =
                update_status now job_id (value processing) (some validate_script) (some 0)
                  (some "실행 중...") w.jobs;
          },
          some starting,
        )
  ]

  unfoldable pub assets_of : RenderedAssets F → Assets F
  assets_of rendered = record {
    video_url = rendered.mp4_path;
    subtitle_url = rendered.subtitle_path;
    thumbnail_url = rendered.thumbnail_path;
    duration_sec = rendered.duration_sec;
  }

  unfoldable pub complete : ℕ → String → RenderedAssets F → Runner F → Runner F × Option (Point F)
  unfolding assets_of
  complete now job_id rendered w = (
    record w {
      jobs =
          update_status now job_id (value completed) (some finalize) (some 100) (some "렌더링 완료!")
            (update_assets now job_id (assets_of rendered) w.jobs);
    },
    some (announcing_success rendered),
  )

  unfoldable pub call_back : String → RenderedAssets F → Runner F → Runner F × Option (Point F)
  unfolding finish
  call_back job_id rendered w = finish job_id (record w {
    callbacks =
        record { job_id = job_id; video_url = rendered.mp4_path; duration = rendered.duration_sec }
        ∷ w.callbacks;
  })

  -- The task goes on from its await to the next; none where it is over. The first notification
  -- stands before the `try`, so that its exceptions are not caught.
  unfoldable pub continue_from :
      Point F → ℕ → Outcome F → String → Runner F → Runner F × Option (Point F)
  unfolding rescue next_step begin complete call_back fail finish
  continue_from (created by_spec) now outcome job_id w = begin by_spec now job_id w
  continue_from starting now (returned r) job_id w =
      if w.has_renderer
      then next_step now job_id steps w
      else fail now job_id "RuntimeError" "Renderer not configured" w
  continue_from starting now (storage_upload_error key message) job_id w = (w, none)
  continue_from starting now (raised type message) job_id w = (w, none)
  continue_from (announcing rest) now outcome job_id w =
      rescue now job_id outcome (λ r. (w, some (rendering rest))) w
  continue_from (rendering rest) now outcome job_id w =
      rescue now job_id outcome (λ r. next_step now job_id rest w) w
  continue_from collecting now outcome job_id w =
      rescue now job_id outcome (λ r. complete now job_id r w) w
  continue_from (announcing_success rendered) now outcome job_id w =
      rescue now job_id outcome (λ r. call_back job_id rendered w) w
  continue_from announcing_failure now outcome job_id w = finish job_id w

  -- A `CancelledError` at the await; a task that has not started, or not reached the `try`, has no
  -- `finally` to run.
  unfoldable pub cancel_at : Point F → String → Runner F → Runner F × Option (Point F)
  unfolding finish
  cancel_at (created by_spec) job_id w = (w, none)
  cancel_at starting job_id w = (w, none)
  cancel_at (announcing rest) job_id w = finish job_id w
  cancel_at (rendering rest) job_id w = finish job_id w
  cancel_at collecting job_id w = finish job_id w
  cancel_at (announcing_success rendered) job_id w = finish job_id w
  cancel_at announcing_failure job_id w = finish job_id w

  unfoldable pub resume : ℕ → Outcome F → Task F → Runner F → Runner F × Option (Point F)
  unfolding continue_from cancel_at
  resume now outcome task w =
      if task.cancelled
      then cancel_at task.at task.job_id w
      else continue_from task.at now outcome task.job_id w
