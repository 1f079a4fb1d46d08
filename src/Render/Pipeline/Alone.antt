-- ===== src/Render/Pipeline/Alone.antt =====
-- app/services/render_job_runner.py: the pipeline of a job, left alone, comes to an end that is
-- stored with the job.
use Prim.{tt}
use ctrlf_ai.Prelude.{
  some_inj, subst, ℕ, suc, ◌≤◌, String, ◌≡◌, refl, Bool, true, false, not, ◌&&◌, Option, some, none,
  List, [], ◌∷◌, length, arith, if◌then◌else◌, inl, inr, Option-cases,
}
use ctrlf_ai.Render.Status.{value, processing}
use ctrlf_ai.Render.Steps.{validate_script, steps}
use ctrlf_ai.Render.Jobs.{RenderJobEntity, get, with_status, update_status, has_render_spec}
use ctrlf_ai.Render.Pipeline.{
  RenderedAssets, Point, created, starting, announcing, rendering, collecting, announcing_success,
  announcing_failure, Outcome, returned, Runner, fail, next_step, begin, continue_from, is_canceled,
}
use ctrlf_ai.Render.Pipeline.Settled.{
  IsFinal, Fits, HasJob, IsSettled, Settles, fail-Settles, next_step-Settles, continue_from-Settles,
  processing_named,
}
use ctrlf_ai.Render.Pipeline.Moves.{awaits_left, IsNearer, continue_from-IsMove, get-update_self}

module _ {F : Type 0} where
  -- The task of a job goes on from await to await while nothing else happens.
  unfoldable pub drive :
      List (ℕ × Outcome F) → Point F → String → Runner F → Runner F × Option (Point F)
  drive [] at job_id w = (w, some at)
  drive ((now, outcome) ∷ moves) at job_id w =
      let (w', next) = continue_from at now outcome job_id w in
      elim next [ none ↦ (w', none) | some p ↦ drive moves p job_id w' ]

  never : (at : Point F) → awaits_left at ≤ 0 → ⊥
  unfolding awaits_left
  never (created by_spec) le = omega arith
  never starting le = omega arith
  never (announcing rest) le = omega arith
  never (rendering rest) le = omega arith
  never collecting le = omega arith
  never (announcing_success rendered) le = omega arith
  never announcing_failure le = omega arith

  less_left :
      (p : Point F) (next : Option (Point F)) (n m : ℕ)
      → IsNearer n next
      → next ≡ some p
      → n ≤ suc m
      → awaits_left p ≤ m
  less_left p none n m nearer e le = let f : none ≡ some p = e in cc
  less_left p (some q) n m nearer e le =
      subst (λ x. awaits_left x ≤ m) (some_inj e) (omega (arith, nearer, le))

  -- Over, and the job at an end
  abbrev pub IsOver : String → Runner F × Option (Point F) → Type 0
  IsOver k out = (out.1 ≡ none) × HasJob k IsFinal out.0

  drive-after :
      (moves : List (ℕ × Outcome F)) (at : Point F) (now : ℕ) (outcome : Outcome F) (k : String)
      (w : Runner F)
      → Settles k (continue_from at now outcome k w)
      → IsNearer (suc (length moves)) (continue_from at now outcome k w).1
      → ((p : Point F) (w' : Runner F)
          → HasJob k (Fits p) w'
          → awaits_left p ≤ length moves
          → IsOver k (drive moves p k w'))
      → IsOver k (drive ((now, outcome) ∷ moves) at k w)
  unfolding drive Settles
  drive-after moves at now outcome k w settles nearer later =
      let settled : IsSettled k _ (continue_from at now outcome k w).1 = settles in
      elim (Option-cases (continue_from at now outcome k w).1) [
        | inl e ↦ rw (drive, e) (refl, rw e at settled)
        | inr (p, e) ↦
            rw (drive, e)
              (later p (continue_from at now outcome k w).0 (rw e at settled)
                (less_left p _ (suc (length moves)) _ nearer e (omega arith)))
      ]

  begin-working :
      (by_spec : Bool) (now : ℕ) (k : String) (w : Runner F) (job : RenderJobEntity F)
      → get k w.jobs ≡ some job
      → by_spec && not (has_render_spec job) ≡ false
      → is_canceled job ≡ false
      → ((begin by_spec now k w).1 ≡ some starting)
        × HasJob k (λ status. status ≡ value processing) (begin by_spec now k w).0
  unfolding begin update_status
  begin-working by_spec now k w job found ready fresh =
      rw (begin, found, ready, fresh)
        (
          refl,
          record {
            job =
                with_status now (value processing) (some validate_script) (some 0) (some "실행 중...")
                  job;
            found = get-update_self k _ job w.jobs found;
            fits = processing_named now _ _ _ job;
          },
        )

  starting-Settles :
      (now : ℕ) (r : RenderedAssets F) (k : String) (w : Runner F)
      → HasJob k (λ status. status ≡ value processing) w
      → Settles k (continue_from starting now (returned r) k w)
  unfolding continue_from
  starting-Settles now r k w h =
      elim w.has_renderer
        as (λ b. Settles k (
          if b
          then next_step now k steps w
          else fail now k "RuntimeError" "Renderer not configured" w)) [
            | true ↦ next_step-Settles now k steps w h.job h.found h.fits
            | false ↦ fail-Settles now k _ _ w h.job h.found
          ]

  IsNearer-le : (n m : ℕ) (next : Option (Point F)) → IsNearer n next → n ≤ m → IsNearer m next
  IsNearer-le n m none h le = tt
  IsNearer-le n m (some at) h le = omega (arith, h)

  -- From an await inside the `try`, driven for long enough
  drive-Ends :
      (moves : List (ℕ × Outcome F)) (at : Point F) (k : String) (w : Runner F)
      → HasJob k (Fits at) w
      → awaits_left at ≤ length moves
      → IsOver k (drive moves at k w)
  drive-Ends [] at k w h le = absurd (never at le)
  drive-Ends ((now, outcome) ∷ moves) at k w h le =
      drive-after moves at now outcome k w (continue_from-Settles now k at outcome w h)
        (IsNearer-le _ _ _ (continue_from-IsMove at now outcome k w).nearer (omega arith))
        (λ p w' fits few. drive-Ends moves p k w' fits few)

  -- A pipeline that is left alone brings its job to an end that is stored: where the job is there,
  -- is not canceled and has its render-spec (if the task needs one), and the first notification does
  -- not raise, the task is over after at most 19 awaits, however the others end, with a renderer or
  -- without, and the job is then COMPLETED or FAILED.
  pub drive-settles :
      (by_spec : Bool) (start next : ℕ) (o : Outcome F) (r : RenderedAssets F)
      (moves : List (ℕ × Outcome F)) (k : String) (w : Runner F) (job : RenderJobEntity F)
      → get k w.jobs ≡ some job
      → by_spec && not (has_render_spec job) ≡ false
      → is_canceled job ≡ false
      → 17 ≤ length moves
      → let out = drive ((start, o) ∷ (next, returned r) ∷ moves) (created by_spec) k w in
        (out.1 ≡ none) × HasJob k IsFinal out.0
  unfolding drive continue_from Settles
  drive-settles by_spec start next o r moves k w job found ready fresh le =
      let (begun, working) = begin-working by_spec start k w job found ready fresh in
      rw (drive, begun)
        (drive-after moves starting next (returned r) k (begin by_spec start k w).0
          (starting-Settles next r k (begin by_spec start k w).0 working)
          (IsNearer-le _ _ _
            (continue_from-IsMove starting next (returned r) k (begin by_spec start k w).0).nearer
            (unfold awaits_left in omega arith))
          (λ p w' fits few. drive-Ends moves p k w' fits few))
