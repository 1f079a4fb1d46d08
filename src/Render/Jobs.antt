-- ===== src/Render/Jobs.antt =====
-- app/repositories/render_job_repository.py: the table of render jobs, from the job id to the job,
-- in the order of the rows. A time is a number that grows with it; the texts that the table keeps
-- for the dicts are the dicts. `ORDER BY ... LIMIT 1` is the first of the rows with the latest time.
pub mod Active
pub mod Shape
use ctrlf_ai.Prelude.{
  ℕ, suc, String, Bool, true, false, ◌||◌, ◌&&◌, Option, some, none, List, [], ◌∷◌, ◌++◌, ltb,
  if◌then◌else◌, ◌=ˢ◌,
}
use ctrlf_ai.Prelude.Dict.{Dict, lookup, remove}
use ctrlf_ai.Render.Status.{
  value, queued, processing, completed, failed, stored, status_normalize_map,
}
use ctrlf_ai.Render.Steps.{RenderStep}
use ctrlf_ai.Render.Spec.{RenderSpec}

-- The dict `assets` that the runner stores
pub record Assets (F : Type 0) : Type 0 where
  pub video_url : String
  pub subtitle_url : String
  pub thumbnail_url : String
  pub duration_sec : F

pub record RenderJobEntity (F : Type 0) : Type 0 where
  pub job_id : String
  pub video_id : String
  pub script_id : String
  pub status : String
  pub step : Option RenderStep
  pub progress : ℕ
  pub message : String
  pub error_code : Option String
  pub error_message : Option String
  pub assets : Option (Assets F)
  pub render_spec_json : Option (RenderSpec F)
  pub created_by : String
  pub created_at : ℕ
  pub updated_at : ℕ
  pub started_at : Option ℕ
  pub finished_at : Option ℕ

abbrev pub is_some {ℓ} : {A : Type ℓ} → Option A → Bool
is_some none = false
is_some (some a) = true

abbrev pub or_else {ℓ} : {A : Type ℓ} → Option A → A → A
or_else none d = d
or_else (some a) d = a

-- One update after the other, `SET status = new WHERE status = old`
unfoldable pub migrated_status : List (String × String) → String → String
migrated_status [] status = status
migrated_status ((old, new) ∷ rest) status =
    migrated_status rest (if status =ˢ old then new else status)

module _ {F : Type 0} where
  unfoldable pub is_active : RenderJobEntity F → Bool
  is_active job = job.status =ˢ value queued || job.status =ˢ value processing

  unfoldable pub is_terminal : RenderJobEntity F → Bool
  is_terminal job = job.status =ˢ value completed || job.status =ˢ value failed

  unfoldable pub has_render_spec : RenderJobEntity F → Bool
  has_render_spec job = is_some job.render_spec_json

  -- `INSERT OR REPLACE`: a row with the same key is deleted, and the new one comes last.
  unfoldable pub save : ℕ → RenderJobEntity F → Dict (RenderJobEntity F) → Dict (RenderJobEntity F)
  save now job jobs =
      remove job.job_id jobs
      ++ ((job.job_id, record job { status = stored job.status; updated_at = now }) ∷ [])

  unfoldable pub get : String → Dict (RenderJobEntity F) → Option (RenderJobEntity F)
  get job_id jobs = lookup job_id jobs

  -- `UPDATE render_jobs SET ... WHERE job_id = ?`
  unfoldable pub update :
      String
      → (RenderJobEntity F → RenderJobEntity F)
      → Dict (RenderJobEntity F)
      → Dict (RenderJobEntity F)
  update job_id change [] = []
  update job_id change ((key, job) ∷ jobs) =
      let rest = update job_id change jobs in
      if key =ˢ job_id then (key, change job) ∷ rest else (key, job) ∷ rest

  -- `cursor.rowcount > 0`, which the updates return and the runner does not look at
  unfoldable pub has_row : String → Dict (RenderJobEntity F) → Bool
  unfolding get
  has_row job_id jobs = is_some (get job_id jobs)

  unfoldable pub with_status :
      ℕ
      → String
      → Option RenderStep
      → Option ℕ
      → Option String
      → RenderJobEntity F
      → RenderJobEntity F
  with_status now status step progress message job =
      let status = stored status in
      record job {
        status = status;
        updated_at = now;
        step = elim step [ none ↦ job.step | some s ↦ some s ];
        progress = or_else progress job.progress;
        message = or_else message job.message;
        started_at =
            if status =ˢ value processing
            then some (or_else job.started_at now)
            else job.started_at;
        finished_at =
            if status =ˢ value completed || status =ˢ value failed
            then some now
            else job.finished_at;
      }

  unfoldable pub update_status :
      ℕ
      → String
      → String
      → Option RenderStep
      → Option ℕ
      → Option String
      → Dict (RenderJobEntity F)
      → Dict (RenderJobEntity F)
  update_status now job_id status step progress message =
      update job_id (with_status now status step progress message)

  unfoldable pub with_assets : ℕ → Assets F → RenderJobEntity F → RenderJobEntity F
  with_assets now assets job = record job { assets = some assets; updated_at = now }

  unfoldable pub update_assets :
      ℕ → String → Assets F → Dict (RenderJobEntity F) → Dict (RenderJobEntity F)
  update_assets now job_id assets = update job_id (with_assets now assets)

  unfoldable pub with_error : ℕ → String → String → RenderJobEntity F → RenderJobEntity F
  with_error now error_code error_message job = record job {
    error_code = some error_code;
    error_message = some error_message;
    status = value failed;
    updated_at = now;
    finished_at = some now;
  }

  unfoldable pub update_error :
      ℕ → String → String → String → Dict (RenderJobEntity F) → Dict (RenderJobEntity F)
  update_error now job_id error_code error_message =
      update job_id (with_error now error_code error_message)

  unfoldable pub with_render_spec : ℕ → RenderSpec F → RenderJobEntity F → RenderJobEntity F
  with_render_spec now spec job = record job { render_spec_json = some spec; updated_at = now }

  unfoldable pub update_render_spec :
      ℕ → String → RenderSpec F → Dict (RenderJobEntity F) → Dict (RenderJobEntity F)
  update_render_spec now job_id spec = update job_id (with_render_spec now spec)

  unfoldable pub delete : String → Dict (RenderJobEntity F) → Dict (RenderJobEntity F)
  delete job_id jobs = remove job_id jobs

  -- `_migrate_normalize_status_values`, which runs when the table is opened
  unfoldable pub migrate_normalize_status_values :
      Dict (RenderJobEntity F) → Dict (RenderJobEntity F)
  unfolding migrated_status
  migrate_normalize_status_values [] = []
  migrate_normalize_status_values ((key, job) ∷ jobs) =
      (key, record job { status = migrated_status status_normalize_map job.status })
      ∷ migrate_normalize_status_values jobs

  -- The rows of a `SELECT ... WHERE`, in the order of the table
  unfoldable pub select :
      (RenderJobEntity F → Bool) → Dict (RenderJobEntity F) → List (RenderJobEntity F)
  select p [] = []
  select p ((key, job) ∷ jobs) = let rest = select p jobs in if p job then job ∷ rest else rest

  -- `ORDER BY ... DESC LIMIT 1`
  unfoldable pub latest :
      (RenderJobEntity F → ℕ) → List (RenderJobEntity F) → Option (RenderJobEntity F)
  latest time [] = none
  latest time (job ∷ jobs) = elim (latest time jobs) [
    | none ↦ some job
    | some later ↦ if ltb (time job) (time later) then some later else some job
  ]

  unfoldable pub get_active_by_video_id :
      String → Dict (RenderJobEntity F) → Option (RenderJobEntity F)
  unfolding is_active select latest
  get_active_by_video_id video_id jobs =
      latest (λ job. job.created_at)
        (select (λ job. job.video_id =ˢ video_id && is_active job) jobs)

  -- Rows without a time come last, as NULL does in a descending order.
  unfoldable pub get_succeeded_by_video_id :
      String → Dict (RenderJobEntity F) → Option (RenderJobEntity F)
  unfolding select latest
  get_succeeded_by_video_id video_id jobs =
      latest (λ job. elim job.finished_at [ none ↦ 0 | some t ↦ suc t ])
        (select (λ job. job.video_id =ˢ video_id && job.status =ˢ value completed) jobs)

  -- The job whose assets name a video, among the completed ones only the latest
  unfoldable pub get_latest_published_by_video_id :
      String → Dict (RenderJobEntity F) → Option (RenderJobEntity F)
  unfolding select latest
  get_latest_published_by_video_id video_id jobs =
      elim (latest (λ job. elim job.finished_at [ none ↦ 0 | some t ↦ suc t ])
        (select
          (λ job. job.video_id =ˢ video_id && job.status =ˢ value completed && is_some job.assets)
          jobs)) [
            | none ↦ none
            | some job ↦ elim job.assets [
              | none ↦ none
              | some assets ↦ if assets.video_url =ˢ "" then none else some job
            ]
          ]

  unfoldable pub count_by_video_id : String → Dict (RenderJobEntity F) → ℕ
  count_by_video_id video_id [] = 0
  count_by_video_id video_id ((key, job) ∷ jobs) =
      let rest = count_by_video_id video_id jobs in
      if job.video_id =ˢ video_id then suc rest else rest
