-- ===== src/Render/Runner/Creation.antt =====
-- app/services/render_job_runner.py: the calls that create a job create it once.
use Prim.Native.String.{◌++◌ as ◌++ˢ◌}
use ctrlf_ai.Prelude.{
  ℕ, ◌+◌, ◌≤◌, String, ◌≡◌, refl, sym, ap, ◌∙◌, Bool, true, false, not, some, Option-cases, [], ◌∷◌,
  ◌++◌, arith, inl, inr, if◌then◌else◌, ◌=ˢ◌, eq_refl, eq_iff,
}
use ctrlf_ai.Prelude.Dict.{Dict, lookup, remove, lookup-append, lookup-remove}
use ctrlf_ai.Render.Status.{stored, normalize_job_status, normalize_to_enum}
use ctrlf_ai.Render.Jobs.{RenderJobEntity, get, save, get_active_by_video_id, is_active}
use ctrlf_ai.Render.Jobs.Active.{
  is_active_of, active_count, select-save, IsNewest, get_active_by_video_id-IsNewest,
}
use ctrlf_ai.Render.Pipeline.{Runner}
use ctrlf_ai.Render.Runner.{
  JobCreationResult, creation, new_job, spawn, create_job_with_id, create_job,
}
use ctrlf_ai.Render.Script.{VideoScript}

few_of :
    (video v : String) (n m : ℕ)
    → (video ≡ v → n ≡ 0)
    → n ≤ 1
    → m ≤ n + (if video =ˢ v then 1 else 0)
    → m ≤ 1
few_of video v n m none_yet one grows = ground (arith, none_yet, eq_iff video v)

module _ {F : Type 0} where
  saved_count :
      (now : ℕ) (k video script by v : String) (jobs : Dict (RenderJobEntity F))
      → active_count v (save now (new_job now k video script by) jobs)
        ≤ active_count v jobs + (if video =ˢ v then 1 else 0)
  unfolding save new_job stored normalize_job_status normalize_to_enum is_active
  saved_count now k video script by v jobs = ground (
    arith,
    select-save (is_active_of v) k
        (let job : RenderJobEntity F = new_job now k video script by in
          record job { status = stored job.status; updated_at = now })
        jobs,
  )

  abbrev HasFew : String → Runner F × JobCreationResult F → Type 0
  HasFew v out = active_count v out.0.jobs ≤ 1

  if-HasFew :
      (v : String) (b : Bool) (x y : Runner F × JobCreationResult F)
      → HasFew v x
      → HasFew v y
      → HasFew v (if b then x else y)
  if-HasFew v true x y hx hy = hx
  if-HasFew v false x y hx hy = hy

  -- `create_job` never gives a video a second active job, nor any other video: a video that has at
  -- most one active job has at most one after the call.
  pub create_job-one_active :
      (now : ℕ) (k video script_id : String) (script : VideoScript F) (by v : String) (w : Runner F)
      → active_count v w.jobs ≤ 1
      → active_count v (create_job now k video script_id script by w).0.jobs ≤ 1
  unfolding create_job spawn
  create_job-one_active now k video script_id script by v w one =
      if-HasFew v (not (script.video_id =ˢ video)) _ _ one
        (elim (Option-cases (get_active_by_video_id video w.jobs)) [
          | inl e ↦
              let nobody : active_count video w.jobs ≡ 0 =
                unfold IsNewest in rw e at (get_active_by_video_id-IsNewest video w.jobs) in
              rw e (
                few_of video v (active_count v w.jobs) _
                  (λ q. ap (λ x. active_count x w.jobs) (sym q) ∙ nobody) one
                  (saved_count now k video script_id by v w.jobs))
          | inr (job, e) ↦ rw e one
        ])

  lookup-last :
      (k : String) (job : RenderJobEntity F) (jobs : Dict (RenderJobEntity F))
      → lookup k (remove k jobs ++ ((k, job) ∷ [])) ≡ some job
  unfolding lookup
  lookup-last k job jobs =
      ground
        (arith, lookup-append k (remove k jobs) ((k, job) ∷ []), lookup-remove k k jobs, eq_refl k)

  get-save :
      (now : ℕ) (k video script by : String) (jobs : Dict (RenderJobEntity F))
      → (job : RenderJobEntity F) × (get k (save now (new_job now k video script by) jobs)
          ≡ some job)
  unfolding get save new_job
  get-save now k video script by jobs = (_, lookup-last k _ jobs)

  there_after :
      (now : ℕ) (k video script : String) (w : Runner F)
      → (job : RenderJobEntity F) × (get k (create_job_with_id now k video script w).0.jobs
          ≡ some job)
  unfolding create_job_with_id
  there_after now k video script w = elim (Option-cases (get k w.jobs)) [
    | inl e ↦ rw (create_job_with_id, e) (get-save now k video script "backend" w.jobs)
    | inr (job, e) ↦ rw (create_job_with_id, e) (job, e)
  ]

  create_found :
      (now : ℕ) (k video script : String) (w : Runner F) (job : RenderJobEntity F)
      → get k w.jobs ≡ some job
      → (message : String) × (create_job_with_id now k video script w
          ≡ (w, creation job false message))
  unfolding create_job_with_id
  create_found now k video script w job e =
      ("Existing job returned (status: " ++ˢ job.status ++ˢ ")", rw (create_job_with_id, e) refl)

  -- `create_job_with_id` is idempotent: after it the job is there, and another call for the job,
  -- whatever its time, video and script, changes nothing, returns that job and says that it created
  -- none.
  pub create_job_with_id-again :
      (now later : ℕ) (k video script video' script' : String) (w : Runner F)
      → let w' = (create_job_with_id now k video script w).0 in
        (job : RenderJobEntity F) × (get k w'.jobs ≡ some job)
        × ((message : String) × (create_job_with_id later k video' script' w'
              ≡ (w', creation job false message)))
  create_job_with_id-again now later k video script video' script' w =
      let (job, e) = there_after now k video script w in
      (job, e, create_found later k video' script' _ job e)
