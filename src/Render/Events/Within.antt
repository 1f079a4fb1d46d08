-- ===== src/Render/Events/Within.antt =====
-- app/services/render_job_runner.py: how many awaits a task still has before it, event by event.
use Prim.{Unit, tt}
use ctrlf_ai.Prelude.{
  ℕ, suc, ◌<◌, ◌≤◌, String, ◌≡◌, ◌≢◌, refl, ◌⊎◌, inl, inr, Bool, true, false, Option, some, none,
  Option-cases, List, [], ◌∷◌, arith, All, All-append, if◌then◌else◌, ◌==◌, Bool-cases,
}
use ctrlf_ai.Render.Events.Calls.{Closed}
use ctrlf_ai.Render.Pipeline.{
  Point, created, starting, announcing, rendering, collecting, announcing_success,
  announcing_failure, Outcome, Task, Runner, resume,
}
use ctrlf_ai.Render.Pipeline.Moves.{awaits_left, IsNearer, resume-IsMove}
use ctrlf_ai.Render.Runner.{spawn, cancel_task}
use ctrlf_ai.Render.Events.{find_task, move_task, resumed}

module _ {F : Type 0} (n : ℕ) where
  -- The task of number n, if it is there, has at most b awaits left.
  abbrev pub HasLeft : ℕ → List (ℕ × Task F) → Type 0
  HasLeft b = All (λ (entry : ℕ × Task F). entry.0 ≡ n → awaits_left entry.1.at ≤ b)

  if-HasLeft :
      (b : ℕ) (c : Bool) (x y : List (ℕ × Task F))
      → (c ≡ true → HasLeft b x)
      → (c ≡ false → HasLeft b y)
      → HasLeft b (if c then x else y)
  if-HasLeft b true x y hx hy = hx refl
  if-HasLeft b false x y hx hy = hy refl

  cancel_task-HasLeft :
      (b m : ℕ) (tasks : List (ℕ × Task F)) → HasLeft b tasks → HasLeft b (cancel_task m tasks)
  unfolding cancel_task
  cancel_task-HasLeft b m [] h = tt
  cancel_task-HasLeft b m ((k, task) ∷ tasks) h =
      if-HasLeft b (k == m) _ _ (λ e. (h.0, cancel_task-HasLeft b m tasks h.1))
        (λ e. (h.0, cancel_task-HasLeft b m tasks h.1))

  find_task-HasLeft :
      (b : ℕ) (task : Task F) (tasks : List (ℕ × Task F))
      → HasLeft b tasks
      → find_task n tasks ≡ some task
      → awaits_left task.at ≤ b
  unfolding find_task
  find_task-HasLeft b task [] h e = cc
  find_task-HasLeft b task ((m, other) ∷ tasks) h e =
      ground (arith, h.0, find_task-HasLeft b task tasks h.1)

  find_task-absent :
      (b : ℕ) (tasks : List (ℕ × Task F)) → find_task n tasks ≡ none → HasLeft b tasks
  unfolding find_task
  find_task-absent b [] e = tt
  find_task-absent b ((m, task) ∷ tasks) e =
      ((λ q. ground arith), find_task-absent b tasks (ground arith))

  IsNearer-le : (m b : ℕ) (at : Option (Point F)) → IsNearer m at → m ≤ b → IsNearer b at
  IsNearer-le m b none h p = tt
  IsNearer-le m b (some at) h p = omega (arith, h)

  awaits_left_pos : (at : Point F) → 1 ≤ awaits_left at
  unfolding awaits_left
  awaits_left_pos (created by_spec) = omega arith
  awaits_left_pos starting = omega arith
  awaits_left_pos (announcing rest) = omega arith
  awaits_left_pos (rendering rest) = omega arith
  awaits_left_pos collecting = omega arith
  awaits_left_pos (announcing_success rendered) = omega arith
  awaits_left_pos announcing_failure = omega arith

  pub HasLeft-none : (tasks : List (ℕ × Task F)) → HasLeft 0 tasks → find_task n tasks ≡ none
  unfolding find_task
  HasLeft-none [] h = refl
  HasLeft-none ((m, task) ∷ tasks) h =
      ground (arith, HasLeft-none tasks h.1, h.0, awaits_left_pos task.at)

  -- The task takes a step, and has fewer awaits left.
  move_task_same :
      (b : ℕ) (at : Option (Point F)) (tasks : List (ℕ × Task F))
      → IsNearer (suc b) at
      → HasLeft b (move_task n at tasks)
  unfolding move_task
  move_task_same b at [] nearer = tt
  move_task_same b none ((m, task) ∷ tasks) nearer =
      if-HasLeft b (m == n) _ _ (λ e. move_task_same b none tasks nearer)
        (λ e. ((λ q. ground arith), move_task_same b none tasks nearer))
  move_task_same b (some p) ((m, task) ∷ tasks) nearer =
      if-HasLeft b (m == n) _ _
        (λ e. ((λ q. omega (arith, nearer)), move_task_same b (some p) tasks nearer))
        (λ e. ((λ q. ground arith), move_task_same b (some p) tasks nearer))

  move_task_other :
      (m b : ℕ) (at : Option (Point F)) (tasks : List (ℕ × Task F))
      → m ≢ n
      → HasLeft b tasks
      → HasLeft b (move_task m at tasks)
  unfolding move_task
  move_task_other m b at [] ne h = tt
  move_task_other m b none ((k, task) ∷ tasks) ne h =
      if-HasLeft b (k == m) _ _ (λ e. move_task_other m b none tasks ne h.1)
        (λ e. (h.0, move_task_other m b none tasks ne h.1))
  move_task_other m b (some p) ((k, task) ∷ tasks) ne h =
      if-HasLeft b (k == m) _ _
        (λ e. ((λ q. ground arith), move_task_other m b (some p) tasks ne h.1))
        (λ e. (h.0, move_task_other m b (some p) tasks ne h.1))

  -- The task of number n has at most b awaits left, once it is there.
  pub record IsWithin (b : ℕ) (w : Runner F) : Type 0 where
    pub spawned : (n < w.next_task) ⊎ (19 ≤ b)
    pub left : HasLeft b w.tasks

  spawn-IsWithin :
      (b : ℕ) (by_spec : Bool) (k : String) (w : Runner F)
      → IsWithin b w
      → IsWithin b (spawn by_spec k w)
  unfolding spawn awaits_left
  spawn-IsWithin b by_spec k w h = record {
    spawned = ground (arith, h.spawned);
    left = All-append _ w.tasks _ h.left ((λ q. ground (arith, h.spawned)), tt);
  }

  pub IsWithin-closed : (b : ℕ) → Closed {F = F} (λ k. Unit) (IsWithin b)
  IsWithin-closed b = record {
    saved = λ now k video script by w a h. record { spawned = h.spawned; left = h.left };
    spawned = λ by_spec k w a h. spawn-IsWithin b by_spec k w h;
    failed_with = λ now k code message w a h. record { spawned = h.spawned; left = h.left };
    queued_again = λ now k message w a h. record { spawned = h.spawned; left = h.left };
    given_spec = λ now k spec w a h. record { spawned = h.spawned; left = h.left };
    stopped =
        λ k m w a h. record { spawned = h.spawned; left = cancel_task-HasLeft b m w.tasks h.left };
    fetches = λ waiting w h. record { spawned = h.spawned; left = h.left };
  }

  IsWithin-move :
      (b : ℕ) (w w' : Runner F) (tasks : List (ℕ × Task F))
      → IsWithin b w
      → w'.next_task ≡ w.next_task
      → HasLeft b tasks
      → IsWithin b (record w' { tasks = tasks })
  IsWithin-move b w w' tasks h e left = record { spawned = rw e h.spawned; left = left }

  -- A step of another task
  pub resumed_other :
      (now m b : ℕ) (outcome : Outcome F) (w : Runner F)
      → m ≢ n
      → IsWithin b w
      → IsWithin b (resumed now m outcome w)
  unfolding resumed
  resumed_other now m b outcome w ne h = elim (Option-cases (find_task m w.tasks)) [
    | inl e ↦ rw (resumed, e) h
    | inr (task, e) ↦
        let moved = resume-IsMove now outcome task w in
        rw (resumed, e)
          (IsWithin-move b w (resume now outcome task w).0 _ h moved.agree.same_next
            (rw moved.agree.same_tasks (move_task_other m b _ w.tasks ne h.left)))
  ]

  -- A step of the task itself
  pub resumed_self :
      (now b : ℕ) (outcome : Outcome F) (w : Runner F)
      → n < w.next_task
      → IsWithin (suc b) w
      → IsWithin b (resumed now n outcome w)
  unfolding resumed
  resumed_self now b outcome w p h = elim (Option-cases (find_task n w.tasks)) [
    | inl e ↦ rw (resumed, e) (record { spawned = inl p; left = find_task-absent b w.tasks e })
    | inr (task, e) ↦
        let moved = resume-IsMove now outcome task w in
        rw (resumed, e)
          (record {
            spawned = inl (rw moved.agree.same_next p);
            left = rw moved.agree.same_tasks (
                move_task_same b _ w.tasks (
                  IsNearer-le _ _ _ moved.nearer
                    (find_task-HasLeft (suc b) task w.tasks h.left e)));
          })
  ]

  -- A step of any task, where no more is asked than that the awaits do not become more
  pub resumed_any :
      (now m b : ℕ) (outcome : Outcome F) (w : Runner F)
      → IsWithin b w
      → IsWithin b (resumed now m outcome w)
  unfolding resumed
  resumed_any now m b outcome w h = elim (Bool-cases (m == n)) [
    | inr e ↦ resumed_other now m b outcome w (λ q. ground (arith, e)) h
    | inl e ↦ elim (Option-cases (find_task m w.tasks)) [
      | inl e ↦ rw (resumed, e) h
      | inr (task, f) ↦
          let moved = resume-IsMove now outcome task w in
          let same : m ≡ n = ground (arith, e) in
          rw (resumed, f)
            (IsWithin-move b w (resume now outcome task w).0 _ h moved.agree.same_next (
              rw (moved.agree.same_tasks, same)
                (move_task_same b _ w.tasks (
                  IsNearer-le _ _ _ moved.nearer
                    (omega (arith, find_task-HasLeft b task w.tasks h.left (rw same at f)))))))
    ]
  ]

  pub begun_closed : Closed {F = F} (λ k. Unit) (λ w. n < w.next_task)
  unfolding spawn
  begun_closed = record {
    saved = λ now k video script by w a h. h;
    spawned = λ by_spec k w a h. omega (arith, h);
    failed_with = λ now k code message w a h. h;
    queued_again = λ now k message w a h. h;
    given_spec = λ now k spec w a h. h;
    stopped = λ k m w a h. h;
    fetches = λ waiting w h. h;
  }

  pub resumed_begun :
      (now m : ℕ) (outcome : Outcome F) (w : Runner F)
      → n < w.next_task
      → n < (resumed now m outcome w).next_task
  unfolding resumed
  resumed_begun now m outcome w h = elim (Option-cases (find_task m w.tasks)) [
    | inl e ↦ rw (resumed, e) h
    | inr (task, e) ↦ rw (resumed, e) (rw (resume-IsMove now outcome task w).agree.same_next h)
  ]

  HasLeft-le : (b c : ℕ) (tasks : List (ℕ × Task F)) → b ≤ c → HasLeft b tasks → HasLeft c tasks
  HasLeft-le b c [] p h = tt
  HasLeft-le b c ((m, task) ∷ tasks) p h = ((λ q. omega (arith, h.0 q)), HasLeft-le b c tasks p h.1)

  pub IsWithin-le : (b c : ℕ) (w : Runner F) → n < w.next_task → b ≤ c → IsWithin b w → IsWithin c w
  IsWithin-le b c w p le h = record { spawned = inl p; left = HasLeft-le b c w.tasks le h.left }
