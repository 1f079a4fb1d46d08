-- ===== src/Render/Jobs/Active.antt =====
-- app/repositories/render_job_repository.py: the active jobs of a video, and the query for the newest.
use Prim.{tt}
use ctrlf_ai.Prelude.{
  some_inj, ℕ, ◌+◌, ◌≤◌, String, ◌≡◌, refl, ap, subst, Bool, true, ◌&&◌, Option, some, none, List,
  [], ◌∷◌, ◌++◌, length, arith, All, inl, inr, Bool-cases, if◌then◌else◌, ltb, Option-cases, ◌=ˢ◌,
}
use ctrlf_ai.Prelude.Dict.{Dict, remove}
use ctrlf_ai.Render.Jobs.{RenderJobEntity, is_active, select, latest, get_active_by_video_id}

module _ {F : Type 0} where
  abbrev pub is_active_of : String → RenderJobEntity F → Bool
  is_active_of video_id job = job.video_id =ˢ video_id && is_active job

  -- The number of active jobs of a video
  abbrev pub active_count : String → Dict (RenderJobEntity F) → ℕ
  active_count video_id jobs = length (select (is_active_of video_id) jobs)

  module _ (p : RenderJobEntity F → Bool) where
    select-append :
        (xs ys : Dict (RenderJobEntity F))
        → length (select p (xs ++ ys)) ≡ length (select p xs) + length (select p ys)
    unfolding select
    select-append [] ys = omega arith
    select-append ((key, job) ∷ xs) ys = ground (arith, select-append xs ys)

    select-remove :
        (k : String) (jobs : Dict (RenderJobEntity F))
        → length (select p (remove k jobs)) ≤ length (select p jobs)
    unfolding select remove
    select-remove k [] = omega arith
    select-remove k ((key, job) ∷ jobs) = ground (arith, select-remove k jobs)

    -- A row more, in place of the row with its key
    pub select-save :
        (k : String) (job : RenderJobEntity F) (jobs : Dict (RenderJobEntity F))
        → length (select p (remove k jobs ++ ((k, job) ∷ [])))
          ≤ length (select p jobs) + (if p job then 1 else 0)
    unfolding select
    select-save k job jobs =
        ground (arith, select-append (remove k jobs) ((k, job) ∷ []), select-remove k jobs)

    module _ (time : RenderJobEntity F → ℕ) where
      pub latest-none : (jobs : List (RenderJobEntity F)) → latest time jobs ≡ none → jobs ≡ []
      unfolding latest
      latest-none [] e = refl
      latest-none (job ∷ jobs) e = ground arith

      All-le :
          (a b : ℕ) (jobs : List (RenderJobEntity F))
          → a ≤ b
          → All (λ job. time job ≤ a) jobs
          → All (λ job. time job ≤ b) jobs
      All-le a b [] le h = tt
      All-le a b (job ∷ jobs) le h = (omega (arith, h.0), All-le a b jobs le h.1)

      IsTop : (RenderJobEntity F → Type 0) → List (RenderJobEntity F) → RenderJobEntity F → Type 0
      IsTop Q jobs newest = Q newest × All (λ job. time job ≤ time newest) jobs

      -- The latest is one of the jobs, and no job is later.
      latest-IsTop :
          (Q : RenderJobEntity F → Type 0) (newest : RenderJobEntity F)
          (jobs : List (RenderJobEntity F))
          → latest time jobs ≡ some newest
          → All Q jobs
          → IsTop Q jobs newest
      unfolding latest IsTop
      latest-IsTop Q newest [] e q = cc
      latest-IsTop Q newest (job ∷ jobs) e q = elim (Option-cases (latest time jobs)) [
        | inl f ↦
            subst (IsTop Q (job ∷ jobs)) (some_inj (rw f at e))
              (q.0, (omega arith, rw (latest-none jobs f) tt))
        | inr (later, f) ↦
            let h = latest-IsTop Q later jobs f q.1 in
            elim (Bool-cases (ltb (time job) (time later))) [
              | inl less ↦
                  subst (IsTop Q (job ∷ jobs)) (some_inj (rw less at rw f at e))
                    (h.0, (ground (arith, less), h.1))
              | inr more ↦ subst (IsTop Q (job ∷ jobs)) (some_inj (rw more at rw f at e)) (
                q.0,
                (omega arith, All-le (time later) (time job) jobs (ground (arith, more)) h.1),
              )
            ]
      ]

    select-All : (jobs : Dict (RenderJobEntity F)) → All (λ job. p job ≡ true) (select p jobs)
    unfolding select
    select-All [] = tt
    select-All ((key, job) ∷ jobs) = elim (Bool-cases (p job)) [
      | inl e ↦ rw (select, e) (e, select-All jobs)
      | inr e ↦ rw (select, e) (select-All jobs)
    ]

    select-rows :
        (Q : RenderJobEntity F → Type 0) (jobs : Dict (RenderJobEntity F))
        → All Q (select p jobs)
        → All (λ row. p row.1 ≡ true → Q row.1) jobs
    unfolding select
    select-rows Q [] h = tt
    select-rows Q ((key, job) ∷ jobs) h = elim (Bool-cases (p job)) [
      | inl e ↦ let h' = rw (e) at h in ((λ q. h'.0), select-rows Q jobs h'.1)
      | inr e ↦ ((λ q. ground (arith, e, q)), select-rows Q jobs (rw e at h))
    ]

  -- The newest of the active jobs of a video, or none where there is none.
  unfoldable pub IsNewest : String → Dict (RenderJobEntity F) → Option (RenderJobEntity F) → Type 0
  IsNewest video_id jobs none = active_count video_id jobs ≡ 0
  IsNewest video_id jobs (some newest) =
      (is_active_of video_id newest ≡ true)
      × All (λ row. is_active_of video_id row.1 ≡ true → row.1.created_at ≤ newest.created_at) jobs

  -- Where `get_active_by_video_id` finds a job, it is an active job of the video, and none of the
  -- video's active jobs was created later; where it finds none, the video has no active job.
  pub get_active_by_video_id-IsNewest :
      (video_id : String) (jobs : Dict (RenderJobEntity F))
      → IsNewest video_id jobs (get_active_by_video_id video_id jobs)
  unfolding get_active_by_video_id IsNewest IsTop
  get_active_by_video_id-IsNewest video_id jobs =
      let p : RenderJobEntity F → Bool = is_active_of video_id in
      let time : RenderJobEntity F → ℕ = λ job. job.created_at in
      elim (Option-cases (latest time (select p jobs))) [
        | inl e ↦ rw (get_active_by_video_id, e) (ap length (latest-none p time (select p jobs) e))
        | inr (newest, e) ↦
            let top : IsTop p time (λ job. p job ≡ true) (select p jobs) newest =
              latest-IsTop p time (λ job. p job ≡ true) newest (select p jobs) e
                (select-All p jobs) in
            rw (get_active_by_video_id, e)
              (top.0, select-rows p (λ job. job.created_at ≤ newest.created_at) jobs top.1)
      ]
