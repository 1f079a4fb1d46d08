-- ===== src/Render/Pipeline/Moves.antt =====
-- app/services/render_job_runner.py: a task that goes on from an await touches no job but its own,
-- no other task, and comes nearer to its end.
use Prim.{Unit, tt}
use ctrlf_ai.Prelude.{
  some_inj, ℕ, ◌+◌, ◌*◌, ◌<◌, String, ◌≡◌, ◌≢◌, refl, ◌∙◌, Bool, true, false, not, ◌&&◌, Option,
  some, none, List, [], ◌∷◌, length, arith, if◌then◌else◌, ◌=ˢ◌, eq_iff, ap, Bool-cases, inl, inr,
}
use ctrlf_ai.Prelude.Dict.{Dict, lookup}
use ctrlf_ai.Render.Steps.{RenderStep, steps}
use ctrlf_ai.Render.Jobs.{
  RenderJobEntity, get, update, update_status, update_assets, update_error, has_render_spec,
}
use ctrlf_ai.Render.Pipeline.{
  RenderedAssets, Point, created, starting, announcing, rendering, collecting, announcing_success,
  announcing_failure, Outcome, returned, storage_upload_error, raised, Task, Runner, finish, fail,
  fail_upload, rescue, next_step, begin, complete, call_back, continue_from, cancel_at, resume,
  is_canceled,
}

module _ {F : Type 0} where
  -- How many awaits a task may still have, the one at which it waits included.
  unfoldable pub awaits_left : Point F → ℕ
  awaits_left (created by_spec) = 19
  awaits_left starting = 18
  awaits_left (announcing rest) = 5 + 2 * length rest
  awaits_left (rendering rest) = 4 + 2 * length rest
  awaits_left collecting = 3
  awaits_left (announcing_success rendered) = 2
  awaits_left announcing_failure = 1

  abbrev pub IsNearer : ℕ → Option (Point F) → Type 0
  IsNearer n none = Unit
  IsNearer n (some at) = awaits_left at < n

  -- Two runners that differ in the row of one job at most, and not in their tasks.
  pub record AgreeElse (k : String) (w w' : Runner F) : Type 0 where
    pub same_tasks : w'.tasks ≡ w.tasks
    pub same_next : w'.next_task ≡ w.next_task
    pub same_others : (j : String) → j ≢ k → get j w'.jobs ≡ get j w.jobs

  pub record IsMove (k : String) (n : ℕ) (w : Runner F) (out : Runner F × Option (Point F))
      : Type 0 where
    pub agree : AgreeElse k w out.0
    pub nearer : IsNearer n out.1

  if-IsMove :
      (k : String) (n : ℕ) (w : Runner F) (b : Bool) (x y : Runner F × Option (Point F))
      → IsMove k n w x
      → IsMove k n w y
      → IsMove k n w (if b then x else y)
  if-IsMove k n w true x y hx hy = hx
  if-IsMove k n w false x y hx hy = hy

  elim-IsMove {ℓ} :
      {A : Type ℓ} (k : String) (n : ℕ) (w : Runner F) (o : Option A)
      (x : Runner F × Option (Point F)) (y : A → Runner F × Option (Point F))
      → IsMove k n w x
      → ((a : A) → IsMove k n w (y a))
      → IsMove k n w (elim o [ none ↦ x | some a ↦ y a ])
  elim-IsMove k n w none x y hx hy = hx
  elim-IsMove k n w (some a) x y hx hy = hy a

  pub get-update_other :
      (j k : String) (f : RenderJobEntity F → RenderJobEntity F) (jobs : Dict (RenderJobEntity F))
      → j ≢ k
      → get j (update k f jobs) ≡ get j jobs
  unfolding get update lookup
  get-update_other j k f [] ne = refl
  get-update_other j k f ((key, job) ∷ jobs) ne =
      ground (arith, get-update_other j k f jobs ne, eq_iff key k, eq_iff key j)

  pub get-update_self :
      (k : String) (f : RenderJobEntity F → RenderJobEntity F) (job : RenderJobEntity F)
      (jobs : Dict (RenderJobEntity F))
      → get k jobs ≡ some job
      → get k (update k f jobs) ≡ some (f job)
  unfolding get update lookup
  get-update_self k f job [] found = cc
  get-update_self k f job ((key, other) ∷ jobs) found = elim (Bool-cases (key =ˢ k)) [
    | inl e ↦ simp (update, lookup, e, ap f (some_inj (rw e at found)))
    | inr e ↦ rw (update, e) (rw (lookup, e) (get-update_self k f job jobs (rw e at found)))
  ]

  AgreeElse-self : (k : String) (w : Runner F) → AgreeElse k w w
  AgreeElse-self k w = record { same_tasks = refl; same_next = refl; same_others = λ j ne. refl }

  AgreeElse-update :
      (k : String) (f : RenderJobEntity F → RenderJobEntity F) (w w' : Runner F)
      → AgreeElse k w w'
      → AgreeElse k w (record w' { jobs = update k f w'.jobs })
  AgreeElse-update k f w w' a = record {
    same_tasks = a.same_tasks;
    same_next = a.same_next;
    same_others = λ j ne. get-update_other j k f w'.jobs ne ∙ a.same_others j ne;
  }

  module _ (k : String) (n : ℕ) (w : Runner F) where
    ends : (w' : Runner F) → AgreeElse k w w' → IsMove k n w (w', none)
    ends w' a = record { agree = a; nearer = tt }

    waits_at :
        (w' : Runner F) (at : Point F)
        → AgreeElse k w w'
        → awaits_left at < n
        → IsMove k n w (w', some at)
    waits_at w' at a p = record { agree = a; nearer = p }

    finish-IsMove : (w' : Runner F) → AgreeElse k w w' → IsMove k n w (finish k w')
    unfolding finish
    finish-IsMove w' a =
        ends (record w' { running = _ })
          (record {
            same_tasks = a.same_tasks;
            same_next = a.same_next;
            same_others = a.same_others;
          })

    fail-IsMove :
        (now : ℕ) (code message : String) (w' : Runner F)
        → AgreeElse k w w'
        → 1 < n
        → IsMove k n w (fail now k code message w')
    unfolding fail update_error awaits_left
    fail-IsMove now code message w' a p =
        let failed_ = AgreeElse-update k _ w w' a in
        elim-IsMove k n w (get k (update_error now k code message w'.jobs)) _ _
          (finish-IsMove (record w' { jobs = _ }) failed_)
          (λ job. waits_at (record w' { jobs = _ }) announcing_failure failed_ p)

    rescue-IsMove :
        (now : ℕ) (outcome : Outcome F) (go : RenderedAssets F → Runner F × Option (Point F))
        → 1 < n
        → ((r : RenderedAssets F) → IsMove k n w (go r))
        → IsMove k n w (rescue now k outcome go w)
    unfolding rescue fail_upload
    rescue-IsMove now (returned r) go p g = g r
    rescue-IsMove now (storage_upload_error key message) go p g =
        fail-IsMove now _ _ w (AgreeElse-self k w) p
    rescue-IsMove now (raised type message) go p g = fail-IsMove now _ _ w (AgreeElse-self k w) p

    next_step-IsMove :
        (now : ℕ) (rest : List RenderStep)
        → 3 + 2 * length rest < n
        → IsMove k n w (next_step now k rest w)
    unfolding next_step update_status awaits_left
    next_step-IsMove now [] p = waits_at w collecting (AgreeElse-self k w) (omega arith)
    next_step-IsMove now (step ∷ rest) p =
        let moved = AgreeElse-update k _ w w (AgreeElse-self k w) in
        elim-IsMove k n w (get k w.jobs) _ _
          (fail-IsMove now _ _ (record w { jobs = _ }) moved (omega arith))
          (λ job.
            if-IsMove k n w (is_canceled job) _ _ (finish-IsMove w (AgreeElse-self k w))
              (waits_at _ (announcing rest) moved (omega arith)))

    begin-IsMove : (now : ℕ) (by_spec : Bool) → 18 < n → IsMove k n w (begin by_spec now k w)
    unfolding begin update_status update_error awaits_left
    begin-IsMove now by_spec p =
        elim-IsMove k n w (get k w.jobs) _ _ (ends w (AgreeElse-self k w)) (λ job.
          if-IsMove k n w (by_spec && not (has_render_spec job)) _ _
            (ends _ (AgreeElse-update k _ w w (AgreeElse-self k w)))
            (if-IsMove k n w (is_canceled job) _ _ (ends w (AgreeElse-self k w))
              (waits_at _ starting (AgreeElse-update k _ w w (AgreeElse-self k w)) p)))

    complete-IsMove : (now : ℕ) (r : RenderedAssets F) → 2 < n → IsMove k n w (complete now k r w)
    unfolding complete update_status update_assets awaits_left
    complete-IsMove now r p =
        waits_at _ (announcing_success r)
          (AgreeElse-update k _ w (record w { jobs = _ })
            (AgreeElse-update k _ w w (AgreeElse-self k w)))
          p

  pub continue_from-IsMove :
      (at : Point F) (now : ℕ) (outcome : Outcome F) (k : String) (w : Runner F)
      → IsMove k (awaits_left at) w (continue_from at now outcome k w)
  unfolding continue_from awaits_left call_back
  continue_from-IsMove (created by_spec) now outcome k w =
      begin-IsMove k 19 w now by_spec (omega arith)
  continue_from-IsMove starting now (returned r) k w =
      if-IsMove k 18 w w.has_renderer _ _ (next_step-IsMove k 18 w now steps (omega arith))
        (fail-IsMove k 18 w now _ _ w (AgreeElse-self k w) (omega arith))
  continue_from-IsMove starting now (storage_upload_error key message) k w =
      ends k 18 w w (AgreeElse-self k w)
  continue_from-IsMove starting now (raised type message) k w = ends k 18 w w (AgreeElse-self k w)
  continue_from-IsMove (announcing rest) now outcome k w =
      rescue-IsMove k _ w now outcome _ (omega arith) (λ r.
        waits_at k _ w w (rendering rest) (AgreeElse-self k w) (unfold awaits_left in omega arith))
  continue_from-IsMove (rendering rest) now outcome k w =
      rescue-IsMove k _ w now outcome _ (omega arith)
        (λ r. next_step-IsMove k _ w now rest (omega arith))
  continue_from-IsMove collecting now outcome k w =
      rescue-IsMove k 3 w now outcome _ (omega arith)
        (λ r. complete-IsMove k 3 w now r (omega arith))
  continue_from-IsMove (announcing_success rendered) now outcome k w =
      rescue-IsMove k 2 w now outcome _ (omega arith) (λ r.
        finish-IsMove k 2 w (record w { callbacks = _ })
          (record { same_tasks = refl; same_next = refl; same_others = λ j ne. refl }))
  continue_from-IsMove announcing_failure now outcome k w =
      finish-IsMove k 1 w w (AgreeElse-self k w)

  -- A cancelled task changes no job at all.
  pub cancel_at-jobs :
      (at : Point F) (k : String) (w : Runner F)
      → ((cancel_at at k w).0.jobs ≡ w.jobs) × IsMove k (awaits_left at) w (cancel_at at k w)
  unfolding cancel_at finish
  cancel_at-jobs (created by_spec) k w = (refl, ends k _ w w (AgreeElse-self k w))
  cancel_at-jobs starting k w = (refl, ends k _ w w (AgreeElse-self k w))
  cancel_at-jobs (announcing rest) k w =
      (refl, unfold finish in finish-IsMove k _ w w (AgreeElse-self k w))
  cancel_at-jobs (rendering rest) k w =
      (refl, unfold finish in finish-IsMove k _ w w (AgreeElse-self k w))
  cancel_at-jobs collecting k w =
      (refl, unfold finish in finish-IsMove k _ w w (AgreeElse-self k w))
  cancel_at-jobs (announcing_success r) k w =
      (refl, unfold finish in finish-IsMove k _ w w (AgreeElse-self k w))
  cancel_at-jobs announcing_failure k w =
      (refl, unfold finish in finish-IsMove k _ w w (AgreeElse-self k w))

  pub resume-IsMove :
      (now : ℕ) (outcome : Outcome F) (task : Task F) (w : Runner F)
      → IsMove task.job_id (awaits_left task.at) w (resume now outcome task w)
  unfolding resume
  resume-IsMove now outcome task w =
      if-IsMove task.job_id (awaits_left task.at) w task.cancelled _ _
        (cancel_at-jobs task.at task.job_id w).1
        (continue_from-IsMove task.at now outcome task.job_id w)
