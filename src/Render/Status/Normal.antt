-- ===== src/Render/Status/Normal.antt =====
-- app/models/video_render.py: what `normalize_job_status` accepts and yields.
use ctrlf_ai.Prelude.{String, ◌≡◌, refl, sym, ap, ◌∙◌, ◌⊎◌, inl, inr, some, none, Option-cases}
use ctrlf_ai.Render.Status.{
  RenderJobStatus, queued, processing, completed, failed, value, normalize_to_enum,
  normalize_job_status, stored,
}

pub normalize_to_enum-value : (s : RenderJobStatus) → normalize_to_enum (value s) ≡ some s
unfolding normalize_to_enum
normalize_to_enum-value queued = refl
normalize_to_enum-value processing = refl
normalize_to_enum-value completed = refl
normalize_to_enum-value failed = refl

pub stored-value : (s : RenderJobStatus) → stored (value s) ≡ value s
unfolding stored normalize_job_status
stored-value s = rw (stored, normalize_job_status, normalize_to_enum-value s) refl

-- What is stored is the name of a status, or the text itself where it names none.
pub stored-cases :
    (text : String)
    → ((s : RenderJobStatus) × (normalize_to_enum text ≡ some s) × (stored text ≡ value s))
      ⊎ ((normalize_to_enum text ≡ none) × (stored text ≡ text))
unfolding stored normalize_job_status
stored-cases text = elim (Option-cases (normalize_to_enum text)) [
  | inl e ↦ inr (e, rw (stored, normalize_job_status, e) refl)
  | inr (s, e) ↦ inl (s, e, rw (stored, normalize_job_status, e) refl)
]

-- Storing a status normalises it once and for all: a stored status that is read and stored again
-- stays as it is.
stored-stored : (text : String) → stored (stored text) ≡ stored text
stored-stored text = elim (stored-cases text) [
  | inl (s, e, q) ↦ ap stored q ∙ (stored-value s ∙ sym q)
  | inr (e, q) ↦ ap stored q
]
