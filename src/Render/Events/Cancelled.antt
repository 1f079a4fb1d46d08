-- ===== src/Render/Events/Cancelled.antt =====
-- app/services/render_job_runner.py: what `cancel_job` does to a job lasts.
use Prim.{tt}
use ctrlf_ai.Prelude.{
  ℕ, String, ◌≡◌, ◌≢◌, refl, sym, ap, ◌∙◌, Bool, true, false, Option, some, none, Option-cases,
  List, [], ◌∷◌, ◌++◌, arith, All, All-append, inl, inr, if◌then◌else◌, ◌==◌, ◌=ˢ◌, Bool-cases,
  eq_iff,
}
use ctrlf_ai.Prelude.Dict.{Dict, lookup, remove, lookup-remove, lookup-append}
use ctrlf_ai.Floats.{Floats}
use ctrlf_ai.Render.Jobs.{
  RenderJobEntity, get, save, update, update_error, update_status, update_render_spec, is_active,
  with_error,
}
use ctrlf_ai.Render.Pipeline.{Point, Outcome, Task, Runner, resume, is_canceled}
use ctrlf_ai.Render.Pipeline.Moves.{
  resume-IsMove, cancel_at-jobs, get-update_other, get-update_self,
}
use ctrlf_ai.Render.Runner.{new_job, spawn, cancel_task, stop_task, cancel_job}
use ctrlf_ai.Render.Events.{Event, find_task, move_task, resumed, step, run}
use ctrlf_ai.Render.Events.Calls.{Closed, IsAllowed, step-P}

module _ {F : Type 0} (k : String) where
  lookup_before :
      (j : String) (job : RenderJobEntity F) (jobs : Dict (RenderJobEntity F))
      → j ≢ k
      → lookup k (jobs ++ ((j, job) ∷ [])) ≡ lookup k jobs
  unfolding lookup
  lookup_before j job jobs ne = ground (arith, lookup-append k jobs ((j, job) ∷ []), eq_iff j k)

  get-save_other :
      (now : ℕ) (j video script by : String) (jobs : Dict (RenderJobEntity F))
      → j ≢ k
      → get k (save now (new_job now j video script by) jobs) ≡ get k jobs
  unfolding get save new_job lookup
  get-save_other now j video script by jobs ne =
      lookup_before j _ (remove j jobs) ne ∙ ground (arith, lookup-remove j k jobs, eq_iff j k)

  -- Every task of the job is cancelled.
  abbrev AreCancelled : List (ℕ × Task F) → Type 0
  AreCancelled = All (λ (entry : ℕ × Task F). entry.1.job_id ≡ k → entry.1.cancelled ≡ true)

  if-AreCancelled :
      (c : Bool) (x y : List (ℕ × Task F))
      → (c ≡ true → AreCancelled x)
      → (c ≡ false → AreCancelled y)
      → AreCancelled (if c then x else y)
  if-AreCancelled true x y hx hy = hx refl
  if-AreCancelled false x y hx hy = hy refl

  cancel_task-AreCancelled :
      (n : ℕ) (tasks : List (ℕ × Task F)) → AreCancelled tasks → AreCancelled (cancel_task n tasks)
  unfolding cancel_task
  cancel_task-AreCancelled n [] h = tt
  cancel_task-AreCancelled n ((m, task) ∷ tasks) h =
      if-AreCancelled (m == n) _ _ (λ e. ((λ q. refl), cancel_task-AreCancelled n tasks h.1))
        (λ e. (h.0, cancel_task-AreCancelled n tasks h.1))

  move_task-AreCancelled :
      (n : ℕ) (at : Option (Point F)) (tasks : List (ℕ × Task F))
      → AreCancelled tasks
      → AreCancelled (move_task n at tasks)
  unfolding move_task
  move_task-AreCancelled n at [] h = tt
  move_task-AreCancelled n none ((m, task) ∷ tasks) h =
      if-AreCancelled (m == n) _ _ (λ e. move_task-AreCancelled n none tasks h.1)
        (λ e. (h.0, move_task-AreCancelled n none tasks h.1))
  move_task-AreCancelled n (some p) ((m, task) ∷ tasks) h =
      if-AreCancelled (m == n) _ _ (λ e. (h.0, move_task-AreCancelled n (some p) tasks h.1))
        (λ e. (h.0, move_task-AreCancelled n (some p) tasks h.1))

  find_task-AreCancelled :
      (n : ℕ) (task : Task F) (tasks : List (ℕ × Task F))
      → AreCancelled tasks
      → find_task n tasks ≡ some task
      → task.job_id ≡ k
      → task.cancelled ≡ true
  unfolding find_task
  find_task-AreCancelled n task [] h e q = cc
  find_task-AreCancelled n task ((m, other) ∷ tasks) h e q =
      ground (arith, h.0, find_task-AreCancelled n task tasks h.1)

  -- Each task of the job has the number that is registered for it.
  abbrev pub AreRegistered : Option ℕ → List (ℕ × Task F) → Type 0
  AreRegistered o = All (λ (entry : ℕ × Task F). entry.1.job_id ≡ k → o ≡ some entry.0)

  none-AreCancelled : (tasks : List (ℕ × Task F)) → AreRegistered none tasks → AreCancelled tasks
  none-AreCancelled [] h = tt
  none-AreCancelled ((m, task) ∷ tasks) h =
      ((λ q. let e : none ≡ some m = h.0 q in cc), none-AreCancelled tasks h.1)

  -- The registered task of the job is the only one, and is cancelled with it.
  registered-AreCancelled :
      (n : ℕ) (tasks : List (ℕ × Task F))
      → AreRegistered (some n) tasks
      → AreCancelled (cancel_task n tasks)
  unfolding cancel_task
  registered-AreCancelled n [] h = tt
  registered-AreCancelled n ((m, task) ∷ tasks) h =
      if-AreCancelled (m == n) _ _ (λ e. ((λ q. refl), registered-AreCancelled n tasks h.1))
        (λ e. ((λ q. ground (arith, h.0 q, e)), registered-AreCancelled n tasks h.1))

  -- The job is as given, and no task of it will touch it.
  record IsQuiet (job : RenderJobEntity F) (w : Runner F) : Type 0 where
    stored_as : get k w.jobs ≡ some job
    silent : AreCancelled w.tasks

  module _ (job : RenderJobEntity F) where
    IsQuiet-update :
        (j : String) (f : RenderJobEntity F → RenderJobEntity F) (w : Runner F)
        → j ≢ k
        → IsQuiet job w
        → IsQuiet job (record w { jobs = update j f w.jobs })
    IsQuiet-update j f w ne h = record {
      stored_as = get-update_other k j f w.jobs (λ q. ne (sym q)) ∙ h.stored_as;
      silent = h.silent;
    }

    IsQuiet-closed : Closed {F = F} (λ j. j ≢ k) (IsQuiet job)
    unfolding spawn update_error update_status update_render_spec
    IsQuiet-closed = record {
      saved = λ now j video script by w ne h. record {
        stored_as = get-save_other now j video script by w.jobs ne ∙ h.stored_as;
        silent = h.silent;
      };
      spawned = λ by_spec j w ne h. record {
        stored_as = h.stored_as;
        silent = All-append _ w.tasks _ h.silent ((λ q. absurd (ne q)), tt);
      };
      failed_with = λ now j code message w ne h. IsQuiet-update j _ w ne h;
      queued_again = λ now j message w ne h. IsQuiet-update j _ w ne h;
      given_spec = λ now j spec w ne h. IsQuiet-update j _ w ne h;
      stopped = λ j n w ne h. record {
        stored_as = h.stored_as;
        silent = cancel_task-AreCancelled n w.tasks h.silent;
      };
      fetches = λ waiting w h. record { stored_as = h.stored_as; silent = h.silent };
    }

    resume-jobs :
        (now : ℕ) (outcome : Outcome F) (task : Task F) (w : Runner F)
        → (task.job_id ≡ k → task.cancelled ≡ true)
        → get k (resume now outcome task w).0.jobs ≡ get k w.jobs
    unfolding resume
    resume-jobs now outcome task w h = elim (Bool-cases (task.job_id =ˢ k)) [
      | inl e ↦
          rw (resume, h ((eq_iff task.job_id k).0 e))
            (ap (get k) (cancel_at-jobs task.at task.job_id w).0)
      | inr e ↦
          (resume-IsMove now outcome task w).agree.same_others k
            (λ q. ground (arith, eq_iff task.job_id k, e, q))
    ]

    resumed-IsQuiet :
        (now n : ℕ) (outcome : Outcome F) (w : Runner F)
        → IsQuiet job w
        → IsQuiet job (resumed now n outcome w)
    unfolding resumed
    resumed-IsQuiet now n outcome w h = elim (Option-cases (find_task n w.tasks)) [
      | inl e ↦ rw (resumed, e) h
      | inr (task, e) ↦
          let moved = resume-IsMove now outcome task w in
          rw (resumed, e)
            (record {
              stored_as =
                  resume-jobs now outcome task w (find_task-AreCancelled n task w.tasks h.silent e)
                  ∙ h.stored_as;
              silent = rw moved.agree.same_tasks (move_task-AreCancelled n _ w.tasks h.silent);
            })
    ]

module _ (fl : Floats) (sum : List fl.F → fl.F) (k : String) where
  open fl use {F}

  run-IsQuiet :
      (job : RenderJobEntity F) (es : List (Event F)) (w : Runner F)
      → All (IsAllowed (λ j. j ≢ k)) es
      → IsQuiet k job w
      → IsQuiet k job (run fl sum es w)
  unfolding run
  run-IsQuiet job [] w elsewhere h = h
  run-IsQuiet job (e ∷ es) w elsewhere h = run-IsQuiet job es (step fl sum e w) elsewhere.1 (
      step-P fl sum (λ j. j ≢ k) (IsQuiet k job) (IsQuiet-closed k job) e w
        (λ now n outcome q. resumed-IsQuiet k job now n outcome w h) elsewhere.0 h)

  stop_task-IsQuiet :
      (job : RenderJobEntity F) (w : Runner F)
      → get k w.jobs ≡ some job
      → AreRegistered k (lookup k w.running) w.tasks
      → IsQuiet k job (stop_task k w)
  unfolding stop_task
  stop_task-IsQuiet job w found registered = elim (Option-cases (lookup k w.running)) [
    | inl e ↦
        rw (stop_task, e)
          (record { stored_as = found; silent = none-AreCancelled k w.tasks (rw e at registered) })
    | inr (n, e) ↦
        rw (stop_task, e)
          (record {
            stored_as = found;
            silent = registered-AreCancelled k n w.tasks (rw e at registered);
          })
  ]

  cancel_job-IsQuiet :
      (now : ℕ) (job : RenderJobEntity F) (w : Runner F)
      → get k w.jobs ≡ some job
      → is_active job ≡ true
      → AreRegistered k (lookup k w.running) w.tasks
      → IsQuiet k (with_error now "CANCELED" "사용자에 의해 취소됨" job) (cancel_job now k w).0
  unfolding cancel_job update_error
  cancel_job-IsQuiet now job w found active registered =
      rw (cancel_job, found, active)
        (stop_task-IsQuiet _ (record w { jobs = update k _ w.jobs })
          (get-update_self k _ job w.jobs found) registered)

  -- Cancelling lasts. Where a job is active and each of its tasks is the one that is registered for
  -- it, `cancel_job` stores it as FAILED with the code CANCELED, and so it stays, without any change,
  -- whatever is called for other jobs and however far the tasks go on, its own included.
  pub cancel_job_lasts :
      (now : ℕ) (job : RenderJobEntity F) (w : Runner F) (es : List (Event F))
      → get k w.jobs ≡ some job
      → is_active job ≡ true
      → AreRegistered k (lookup k w.running) w.tasks
      → All (IsAllowed (λ j. j ≢ k)) es
      → (get k (run fl sum es (cancel_job now k w).0).jobs
          ≡ some (with_error now "CANCELED" "사용자에 의해 취소됨" job))
        × (is_canceled (with_error now "CANCELED" "사용자에 의해 취소됨" job) ≡ true)
  unfolding is_canceled with_error
  cancel_job_lasts now job w es found active registered elsewhere = (
    (run-IsQuiet _ es (cancel_job now k w).0 elsewhere
        (cancel_job-IsQuiet now job w found active registered)).stored_as,
    refl,
  )
