-- ===== src/Tests/RenderRuns.antt =====
-- A render job from its creation to its end, in fixed-point numbers.
use Prim.{tt}
use ctrlf_ai.Prelude.{
  zero, suc, ℕ, ◌*◌, ◌≤◌, String, ◌≡◌, ◌≢◌, refl, true, false, none, some, Option, List, [], ◌∷◌,
  length, arith, eq_iff,
}
use ctrlf_ai.Prelude.Dict.{lookup, insert, remove}
use ctrlf_ai.Floats.FixedPoint.{fixed_point}
use ctrlf_ai.Render.Status.{stored, normalize_job_status, normalize_to_enum}
use ctrlf_ai.Render.Steps.{validate_script}
use ctrlf_ai.Render.Spec.{
  RenderScene, RenderSpec, to_raw_json, validate_render_spec, group, numbered, chapter_of,
  scenes_of, raw_scene,
}
use ctrlf_ai.Render.Spec.Valid.{AreNormalized, validate_render_spec-AreNormalized}
use ctrlf_ai.Render.Spec.Chapters.{under, scene_count, scenes_in, to_raw_json-chapters}
use ctrlf_ai.Render.Jobs.{
  RenderJobEntity, get, save, update, with_status, update_status, update_assets, update_render_spec,
  with_error, with_render_spec, with_assets, is_active, has_render_spec, select, latest,
  get_active_by_video_id,
}
use ctrlf_ai.Render.Jobs.Shape.{AreSound}
use ctrlf_ai.Render.Jobs.Active.{active_count, IsNewest, get_active_by_video_id-IsNewest}
use ctrlf_ai.Render.Pipeline.{
  RenderedAssets, Outcome, returned, created, Runner, is_canceled, resume, continue_from, begin,
  next_step, rescue, finish, complete, assets_of, call_back, starting,
}
use ctrlf_ai.Render.Pipeline.Alone.{drive, drive-settles}
use ctrlf_ai.Render.Pipeline.Settled.{IsFinal, HasJob}
use ctrlf_ai.Render.Runner.{
  fetched, init, new_job, create_job_with_id, create_job, start_job, start_fetched, launch, spawn,
  cancel_job, has_begun, creation,
}
use ctrlf_ai.Render.Script.{VideoScript, approved, not_indexed, active}
use ctrlf_ai.Render.Runner.Creation.{create_job-one_active, create_job_with_id-again}
use ctrlf_ai.Render.Events.{
  Event, create_with_id, start, fetch_ends, resume_task, find_task, move_task, resumed, waits,
  drop_one, step, run,
}
use ctrlf_ai.Render.Events.Valid.{run-AreSound}
use ctrlf_ai.Render.Events.Ends.{steps_of, is_step, task_ends}
use ctrlf_ai.Render.Events.Calls.{IsAllowed}
use ctrlf_ai.Render.Events.Cancelled.{cancel_job_lasts}

abbrev F : Type 0
F = ℕ × ℕ

abbrev seconds : ℕ → F
seconds n = (1000 * n, 0)

abbrev sum_of : List F → F
sum_of [] = seconds 0
sum_of (x ∷ xs) = fixed_point.plus x (sum_of xs)

abbrev scene_of : ℕ → String → F → RenderScene F
scene_of order chapter duration = record {
  scene_id = "scene";
  scene_order = order;
  chapter_title = chapter;
  purpose = "hook";
  narration = "hello";
  caption = "";
  duration_sec = duration;
  visual_spec = none;
}

abbrev spec : RenderSpec F
spec = record {
  script_id = "s1";
  video_id = "v1";
  title = "security";
  total_duration_sec = seconds 0;
  scenes = scene_of 1 "A" (seconds 3) ∷ scene_of 2 "" (seconds 0) ∷ scene_of 3 "A" (seconds 4) ∷ [];
}

abbrev assets : RenderedAssets F
assets = record {
  mp4_path = "video.mp4";
  thumbnail_path = "thumb.jpg";
  subtitle_path = "sub.srt";
  duration_sec = seconds 12;
}

abbrev ok : Outcome F
ok = returned assets

-- A job is created, started, its render-spec arrives, and its task takes its first step.
abbrev opening : List (Event F)
opening =
    create_with_id 1 "j1" "v1" "s1"
    ∷ start "j1"
    ∷ fetch_ends 2 "j1" "s1" (fetched spec)
    ∷ resume_task 3 0 ok
    ∷ []

abbrev fresh : Runner F
fresh = init true

abbrev opened : Runner F
opened = run fixed_point sum_of opening fresh

abbrev steps_to : ℕ → List (Event F)
steps_to zero = []
steps_to (suc n) = resume_task 9 0 ok ∷ steps_to n

abbrev drives : ℕ → List (ℕ × Outcome F)
drives zero = []
drives (suc n) = (9, ok) ∷ drives n

-- The job as it then is, and the runner with it alone
abbrev job_now : RenderJobEntity F
job_now = record {
  job_id = "j1";
  video_id = "v1";
  script_id = "s1";
  status = "PROCESSING";
  step = some validate_script;
  progress = 0;
  message = "실행 중...";
  error_code = none;
  error_message = none;
  assets = none;
  render_spec_json = some spec;
  created_by = "backend";
  created_at = 1;
  updated_at = 3;
  started_at = some 3;
  finished_at = none;
}

abbrev working : Runner F
working = record {
  jobs = ("j1", job_now) ∷ [];
  running = ("j1", 0) ∷ [];
  tasks = (0, record { job_id = "j1"; cancelled = false; at = starting }) ∷ [];
  next_task = 1;
  fetching = [];
  has_renderer = true;
  callbacks = [];
}

opened_lem : (opened.running ≡ ("j1", 0) ∷ []) × (opened.next_task ≡ 1)
unfolding run step create_job_with_id get lookup new_job save stored normalize_job_status
    normalize_to_enum start_job has_render_spec has_begun launch start_fetched waits drop_one
    update_render_spec with_render_spec update validate_render_spec spawn resumed find_task
    move_task resume continue_from begin is_canceled update_status with_status remove insert
    next_step rescue complete assets_of call_back finish update_assets with_assets
opened_lem = (refl, refl)

run-AreSound_example : AreSound opened.jobs
run-AreSound_example = run-AreSound fixed_point sum_of true opening

normalizes : stored " running " ≡ "PROCESSING"
unfolding stored normalize_job_status normalize_to_enum
normalizes = refl

opened_ends : find_task 0 (run fixed_point sum_of (steps_to 17) opened).tasks ≡ none
unfolding run step create_job_with_id get lookup new_job save stored normalize_job_status
    normalize_to_enum start_job has_render_spec has_begun launch start_fetched waits drop_one
    update_render_spec with_render_spec update validate_render_spec spawn resumed find_task
    move_task resume continue_from begin is_canceled update_status with_status remove insert
    next_step rescue complete assets_of call_back finish update_assets with_assets
opened_ends = refl

task_ends_example :
    find_task 0 (run fixed_point sum_of (steps_to 19) (run fixed_point sum_of opening fresh)).tasks
    ≡ none
unfolding run step create_job_with_id get lookup new_job save stored normalize_job_status
    normalize_to_enum start_job has_render_spec has_begun launch start_fetched waits drop_one
    update_render_spec with_render_spec update validate_render_spec spawn resumed find_task
    move_task resume continue_from begin is_canceled update_status with_status remove insert
    next_step rescue complete assets_of call_back finish update_assets with_assets steps_of is_step
task_ends_example =
    task_ends fixed_point sum_of 0 true opening (steps_to 19) (omega arith) (omega arith)

abbrev second_id : String
second_id = "j2"

abbrev first_id : String
first_id = "j1"

other_job : second_id ≢ first_id
other_job e = let f : false ≡ true = (eq_iff second_id first_id).1 e in cc

cancel_job_lasts_example :
    (get "j1"
        (run fixed_point sum_of
          (resume_task 5 0 ok ∷ create_with_id 6 "j2" "v1" "s2" ∷ resume_task 7 0 ok ∷ [])
          (cancel_job 4 "j1" working).0).jobs
      ≡ some (with_error 4 "CANCELED" "사용자에 의해 취소됨" job_now))
    × (is_canceled (with_error 4 "CANCELED" "사용자에 의해 취소됨" job_now) ≡ true)
unfolding get lookup is_active IsAllowed
cancel_job_lasts_example =
    cancel_job_lasts fixed_point sum_of "j1" 4 job_now working
      (resume_task 5 0 ok ∷ create_with_id 6 "j2" "v1" "s2" ∷ resume_task 7 0 ok ∷ []) refl refl
      ((λ q. refl), tt) (tt, (other_job, (tt, tt)))

abbrev queued_job : RenderJobEntity F
queued_job = record job_now { status = "QUEUED"; step = none; started_at = none }

abbrev waiting : Runner F
waiting = record working { jobs = ("j1", queued_job) ∷ [] }

drive-settles_example :
    let out = drive ((3, ok) ∷ (4, returned assets) ∷ drives 17) (created true) "j1" waiting in
    (out.1 ≡ none) × HasJob "j1" IsFinal out.0
unfolding get lookup has_render_spec is_canceled
drive-settles_example =
    drive-settles true 3 4 ok assets (drives 17) "j1" waiting queued_job refl refl refl
      (omega arith)

abbrev status_of : Option (RenderJobEntity F) → String
status_of none = ""
status_of (some job) = job.status

drives_to_completion :
    status_of (get "j1" (drive ((3, ok) ∷ (4, ok) ∷ drives 17) (created true) "j1" waiting).0.jobs)
    ≡ "COMPLETED"
unfolding run step create_job_with_id get lookup new_job save stored normalize_job_status
    normalize_to_enum start_job has_render_spec has_begun launch start_fetched waits drop_one
    update_render_spec with_render_spec update validate_render_spec spawn resumed find_task
    move_task resume continue_from begin is_canceled update_status with_status remove insert
    next_step rescue complete assets_of call_back finish update_assets with_assets drive
drives_to_completion = refl

abbrev script : VideoScript F
script = record {
  script_id = "s1";
  video_id = "v1";
  status = approved;
  raw_json = record { title = ""; total_duration_sec = seconds 0; chapters = [] };
  created_by = "kim";
  created_at = 0;
  kb_index_status = not_indexed;
  kb_indexed_at = none;
  kb_last_error = none;
  kb_document_id = none;
  kb_document_status = active;
}

create_job-one_active_example :
    active_count "v1" (create_job 5 "j9" "v1" "s1" script "kim" fresh).0.jobs ≤ 1
create_job-one_active_example =
    create_job-one_active 5 "j9" "v1" "s1" script "kim" "v1" fresh (unfold select in omega arith)

create_job_with_id-again_example :
    let w' = (create_job_with_id 1 "j1" "v1" "s1" fresh).0 in
    (job : RenderJobEntity F) × (get "j1" w'.jobs ≡ some job)
    × ((message : String) × (create_job_with_id 2 "j1" "v2" "s2" w'
          ≡ (w', creation job false message)))
create_job_with_id-again_example = create_job_with_id-again 1 2 "j1" "v1" "s1" "v2" "s2" fresh

get_active_by_video_id-IsNewest_example :
    IsNewest "v1" working.jobs (get_active_by_video_id "v1" working.jobs)
get_active_by_video_id-IsNewest_example = get_active_by_video_id-IsNewest "v1" working.jobs

finds_active : get_active_by_video_id "v1" working.jobs ≡ some job_now
unfolding get_active_by_video_id select latest is_active
finds_active = refl

validate_render_spec-AreNormalized_example :
    let valid = (validate_render_spec fixed_point sum_of (seconds 5) spec).0 in
    AreNormalized fixed_point (seconds 5) spec.scenes valid.scenes
    × (validate_render_spec fixed_point sum_of (seconds 5) valid).0 ≡ valid
validate_render_spec-AreNormalized_example =
    validate_render_spec-AreNormalized fixed_point (seconds 5) sum_of spec refl

to_raw_json-chapters_example :
    (under "A" (to_raw_json spec).chapters ≡ scenes_in "A" spec.scenes)
    × (scene_count (to_raw_json spec).chapters ≡ length spec.scenes)
to_raw_json-chapters_example = to_raw_json-chapters spec "A"

two_chapters : length (to_raw_json spec).chapters ≡ 2
unfolding to_raw_json group numbered chapter_of scenes_of raw_scene insert lookup
two_chapters = refl

-- Two starts that overlap while the render-spec is fetched give one job two tasks.
abbrev twice : List (Event F)
twice =
    create_with_id 1 "j1" "v1" "s1"
    ∷ start "j1"
    ∷ start "j1"
    ∷ fetch_ends 2 "j1" "s1" (fetched spec)
    ∷ fetch_ends 3 "j1" "s1" (fetched spec)
    ∷ []

twice_runs_twice : length (run fixed_point sum_of twice fresh).tasks ≡ 2
unfolding run step create_job_with_id get lookup new_job save stored normalize_job_status
    normalize_to_enum start_job has_render_spec has_begun launch start_fetched waits drop_one
    update_render_spec with_render_spec update validate_render_spec spawn resumed find_task
    move_task resume continue_from begin is_canceled update_status with_status remove insert
    next_step rescue complete assets_of call_back finish update_assets with_assets
twice_runs_twice = refl
