-- ===== src/Render/Events.antt =====
-- app/services/render_job_runner.py: what happens to a runner, as a sequence of events. The calls
-- come from app/api/v1/render_jobs.py; between them the event loop takes up one waiting task or one
-- waiting `start_job` at a time.
pub mod Calls
pub mod Cancelled
pub mod Ends
pub mod Within
pub mod Valid
use ctrlf_ai.Prelude.{
  ℕ, String, Bool, true, false, Option, some, none, List, [], ◌∷◌, ◌==◌, if◌then◌else◌, ◌=ˢ◌,
}
use ctrlf_ai.Floats.{Floats}
use ctrlf_ai.Render.Pipeline.{Point, Outcome, Task, Runner, resume}
use ctrlf_ai.Render.Runner.{
  Fetch, create_job_with_id, create_job, start_job, start_fetched, retry_job, cancel_job,
}
use ctrlf_ai.Render.Script.{VideoScript}

pub data Event (F : Type 0) : Type 0 where
  create_with_id : ℕ → String → String → String → Event F
  create : ℕ → String → String → String → VideoScript F → String → Event F
  start : String → Event F
  fetch_ends : ℕ → String → String → Fetch F → Event F
  retry : ℕ → String → Event F
  cancel : ℕ → String → Event F
  resume_task : ℕ → ℕ → Outcome F → Event F

module _ {F : Type 0} where
  unfoldable pub find_task : ℕ → List (ℕ × Task F) → Option (Task F)
  find_task n [] = none
  find_task n ((m, task) ∷ tasks) = if m == n then some task else find_task n tasks

  -- The task at its next await, or no longer there where it is over
  unfoldable pub move_task : ℕ → Option (Point F) → List (ℕ × Task F) → List (ℕ × Task F)
  move_task n at [] = []
  move_task n at ((m, task) ∷ tasks) =
      let rest = move_task n at tasks in
      if m == n
      then (elim at [ none ↦ rest | some point ↦ (m, record task { at = point }) ∷ rest ])
      else (m, task) ∷ rest

  unfoldable pub resumed : ℕ → ℕ → Outcome F → Runner F → Runner F
  unfolding find_task move_task resume
  resumed now n outcome w = elim (find_task n w.tasks) [
    | none ↦ w
    | some task ↦
        let (w', at) = resume now outcome task w in record w' { tasks = move_task n at w'.tasks }
  ]

unfoldable pub waits : String → List String → Bool
waits job_id [] = false
waits job_id (j ∷ js) = if j =ˢ job_id then true else waits job_id js

unfoldable pub drop_one : String → List String → List String
drop_one job_id [] = []
drop_one job_id (j ∷ js) = let rest = drop_one job_id js in if j =ˢ job_id then js else j ∷ rest

module _ (fl : Floats) (sum : List fl.F → fl.F) where
  open fl use {F}

  unfoldable pub step : Event F → Runner F → Runner F
  unfolding resumed waits drop_one
  step (create_with_id now job_id video_id script_id) w =
      (create_job_with_id now job_id video_id script_id w).0
  step (create now job_id video_id script_id script created_by) w =
      (create_job now job_id video_id script_id script created_by w).0
  step (start job_id) w = (start_job job_id w).0
  step (fetch_ends now job_id script_id fetch) w =
      if waits job_id w.fetching
      then (start_fetched fl sum now job_id script_id fetch
          (record w { fetching = drop_one job_id w.fetching })).0
      else w
  step (retry now job_id) w = (retry_job now job_id w).0
  step (cancel now job_id) w = (cancel_job now job_id w).0
  step (resume_task now n outcome) w = resumed now n outcome w

  unfoldable pub run : List (Event F) → Runner F → Runner F
  run [] w = w
  run (e ∷ es) w = run es (step e w)
