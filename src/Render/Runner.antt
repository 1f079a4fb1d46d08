-- ===== src/Render/Runner.antt =====
-- app/services/render_job_runner.py: the calls that `RenderJobRunner` answers. `start_job` is in two
-- parts, before and after it waits for the backend's render-spec; the others are up to their last
-- await, which is a notification.
pub mod Creation
use Prim.Native.String.{◌++◌ as ◌++ˢ◌}
use ctrlf_ai.Prelude.{
  ℕ, suc, ◌+◌, String, Bool, true, false, ◌&&◌, not, ◌||◌, Option, some, none, List, [], ◌∷◌, ◌++◌,
  map, if◌then◌else◌, ◌==◌, ◌=ˢ◌,
}
use ctrlf_ai.Prelude.Dict.{Dict, lookup, insert, remove}
use ctrlf_ai.Floats.{Floats}
use ctrlf_ai.Render.Status.{value, queued, processing, completed, failed}
use ctrlf_ai.Render.Script.{VideoScript}
use ctrlf_ai.Render.Spec.{RenderSpec, RawJson, validate_render_spec}
use ctrlf_ai.Render.Jobs.{
  Assets, RenderJobEntity, is_active, has_render_spec, save, get, update_status, update_error,
  update_render_spec, get_active_by_video_id, get_latest_published_by_video_id,
}
use ctrlf_ai.Render.Pipeline.{Point, created, Task, Runner, prefix}

-- Where the script is of another video a ValueError is raised.
pub data JobCreationResult (F : Type 0) : Type 0 where
  creation : RenderJobEntity F → Bool → String → JobCreationResult F
  video_mismatch : JobCreationResult F

pub record JobStartResult (F : Type 0) : Type 0 where
  pub job : Option (RenderJobEntity F)
  pub started : Bool
  pub message : String
  pub error_code : Option String

-- How the call of `get_render_spec` ends: with a spec, with one of the two exceptions that
-- `start_job` catches, or with another.
pub data Fetch (F : Type 0) : Type 0 where
  fetched : RenderSpec F → Fetch F
  script_fetch_error : String → String → Fetch F
  empty_render_spec_error : Fetch F
  other_error : Fetch F

module _ {F : Type 0} where
  abbrev pub init : Bool → Runner F
  init has_renderer = record {
    jobs = [];
    running = [];
    tasks = [];
    next_task = 0;
    fetching = [];
    has_renderer = has_renderer;
    callbacks = [];
  }

  -- `asyncio.create_task`, and the entry in `_running_jobs`
  unfoldable pub spawn : Bool → String → Runner F → Runner F
  spawn by_spec job_id w = record w {
    running = insert job_id w.next_task w.running;
    tasks =
        w.tasks
        ++ ((w.next_task, record { job_id = job_id; cancelled = false; at = created by_spec })
            ∷ []);
    next_task = suc w.next_task;
  }

  unfoldable pub new_job : ℕ → String → String → String → String → RenderJobEntity F
  new_job now job_id video_id script_id created_by = record {
    job_id = job_id;
    video_id = video_id;
    script_id = script_id;
    status = value queued;
    step = none;
    progress = 0;
    message = "대기 중...";
    error_code = none;
    error_message = none;
    assets = none;
    render_spec_json = none;
    created_by = created_by;
    created_at = now;
    updated_at = now;
    started_at = none;
    finished_at = none;
  }

  unfoldable pub create_job_with_id :
      ℕ → String → String → String → Runner F → Runner F × JobCreationResult F
  unfolding get new_job save
  create_job_with_id now job_id video_id script_id w = elim (get job_id w.jobs) [
    | some job ↦ (w, creation job false ("Existing job returned (status: " ++ˢ job.status ++ˢ ")"))
    | none ↦
        let job = new_job now job_id video_id script_id "backend" in
        (record w { jobs = save now job w.jobs }, creation job true "New job created")
  ]

  -- `job_id` is the fresh id that the call draws.
  unfoldable pub create_job :
      ℕ
      → String
      → String
      → String
      → VideoScript F
      → String
      → Runner F
      → Runner F × JobCreationResult F
  unfolding get_active_by_video_id new_job save spawn
  create_job now job_id video_id script_id script created_by w =
      if not (script.video_id =ˢ video_id)
      then (w, video_mismatch)
      else (elim (get_active_by_video_id video_id w.jobs) [
        | some job ↦ (w, creation job false ("Existing " ++ˢ job.status ++ˢ " job returned"))
        | none ↦
            let job = new_job now job_id video_id script_id created_by in
            (
              spawn false job_id (record w { jobs = save now job w.jobs }),
              creation job true "New job created and started",
            )
      ])

  abbrev pub job_not_found : JobStartResult F
  job_not_found = record {
    job = none;
    started = false;
    message = "Job not found";
    error_code = some "JOB_NOT_FOUND";
  }

  -- The last part of `start_job`
  unfoldable pub launch : String → Runner F → Runner F × JobStartResult F
  unfolding spawn get
  launch job_id w = (
    spawn true job_id w,
    record { job = get job_id w.jobs; started = true; message = "Job started"; error_code = none },
  )

  unfoldable pub has_begun : RenderJobEntity F → Bool
  has_begun job =
      job.status =ˢ value processing || job.status =ˢ value completed || job.status =ˢ value failed

  -- `start_job` up to its await; none where it waits for the render-spec.
  unfoldable pub start_job : String → Runner F → Runner F × Option (JobStartResult F)
  unfolding launch has_begun has_render_spec
  start_job job_id w = elim (get job_id w.jobs) [
    | none ↦ (w, some job_not_found)
    | some job ↦
        let (launched, result) = launch job_id w in
        if has_render_spec job && has_begun job
        then (
          w,
          some (record {
            job = some job;
            started = false;
            message = "Job already " ++ˢ job.status;
            error_code = none;
          }),
        )
        else if has_render_spec job
        then (launched, some result)
        else (record w { fetching = w.fetching ++ (job_id ∷ []) }, none)
  ]

  -- An exception that `start_job` catches
  unfoldable pub refuse_start :
      ℕ → String → String → String → String → Runner F → Runner F × JobStartResult F
  unfolding update_error get
  refuse_start now job_id error_code error_message message w =
      let jobs = update_error now job_id error_code error_message w.jobs in
      (
        record w { jobs = jobs },
        record {
          job = get job_id jobs;
          started = false;
          message = message;
          error_code = some error_code;
        },
      )

  unfoldable pub retry_job : ℕ → String → Runner F → Runner F × JobStartResult F
  unfolding get has_render_spec update_status spawn
  retry_job now job_id w = elim (get job_id w.jobs) [
    | none ↦ (w, job_not_found)
    | some job ↦
        let jobs =
          update_status now job_id (value queued) none (some 0) (some "재시도 대기 중...") w.jobs in
        if not (has_render_spec job)
        then (
          w,
          record {
            job = some job;
            started = false;
            message = "No render-spec snapshot for retry. Use start_job first.";
            error_code = some "NO_RENDER_SPEC_FOR_RETRY";
          },
        )
        else if job.status =ˢ value processing
        then (
          w,
          record {
            job = some job;
            started = false;
            message = "Job is already running";
            error_code = none;
          },
        )
        else (
          spawn true job_id (record w { jobs = jobs }),
          record {
            job = get job_id jobs;
            started = true;
            message = "Job retry started";
            error_code = none;
          },
        )
  ]

  -- `task.cancel()`
  unfoldable pub cancel_task : ℕ → List (ℕ × Task F) → List (ℕ × Task F)
  cancel_task n [] = []
  cancel_task n ((m, task) ∷ tasks) =
      let rest = cancel_task n tasks in
      if m == n then (m, record task { cancelled = true }) ∷ rest else (m, task) ∷ rest

  -- The running task of the job is cancelled and forgotten.
  unfoldable pub stop_task : String → Runner F → Runner F
  unfolding cancel_task
  stop_task job_id w = elim (lookup job_id w.running) [
    | none ↦ w
    | some n ↦ record w { running = remove job_id w.running; tasks = cancel_task n w.tasks }
  ]

  -- Whether the call is refused, for which it returns None; else it returns the job as it then is.
  unfoldable pub cancel_job : ℕ → String → Runner F → Runner F × Bool
  unfolding get is_active update_error stop_task
  cancel_job now job_id w = elim (get job_id w.jobs) [
    | none ↦ (w, true)
    | some job ↦
        if is_active job
        then (
          stop_task job_id
              (record w { jobs = update_error now job_id "CANCELED" "사용자에 의해 취소됨" w.jobs }),
          false,
        )
        else (w, true)
  ]

  -- `get_published_assets`: the assets, the time of publication, the script and the job
  unfoldable pub get_published_assets :
      String → Runner F → Option (Assets F × Option ℕ × String × String)
  unfolding get_latest_published_by_video_id
  get_published_assets video_id w = elim (get_latest_published_by_video_id video_id w.jobs) [
    | none ↦ none
    | some job ↦ elim job.assets [
      | none ↦ none
      | some assets ↦ some (assets, job.finished_at, job.script_id, job.job_id)
    ]
  ]

-- The job's `script_id` was read before the await.
abbrev no_scenes : String → String
no_scenes script_id =
    "EMPTY_RENDER_SPEC: No scenes in render-spec (script_id=" ++ˢ script_id ++ˢ ")"

module _ (fl : Floats) (sum : List fl.F → fl.F) where
  open fl use {F, of_nat}

  -- `start_job` after its await. The snapshot is stored and the pipeline started, whatever has
  -- become of the job meanwhile.
  unfoldable pub start_fetched :
      ℕ → String → String → Fetch F → Runner F → Runner F × Option (JobStartResult F)
  unfolding update_render_spec launch refuse_start
  start_fetched now job_id script_id (fetched spec) w =
      let spec = (validate_render_spec fl sum (of_nat 5) spec).0 in
      let (launched, result) =
        launch job_id (record w { jobs = update_render_spec now job_id spec w.jobs }) in
      (launched, some result)
  start_fetched now job_id script_id (script_fetch_error code message) w =
      let (w', result) = refuse_start now job_id code message message w in (w', some result)
  start_fetched now job_id script_id empty_render_spec_error w =
      let (w', result) =
        refuse_start now job_id "EMPTY_RENDER_SPEC" (no_scenes script_id)
          "Render-spec has no scenes" w in
      (w', some result)
  start_fetched now job_id script_id other_error w = (w, none)
