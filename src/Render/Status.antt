-- ===== src/Render/Status.antt =====
-- app/models/video_render.py: the statuses of a render job and `normalize_job_status`.
pub mod Normal
use ctrlf_ai.Prelude.{String, Bool, Option, some, none, List, [], ◌∷◌, if◌then◌else◌}
use ctrlf_ai.Text.{Text, codes, strip, upper, equals}

pub data RenderJobStatus : Type 0 where
  queued processing completed failed : RenderJobStatus

abbrev pub value : RenderJobStatus → String
value queued = "QUEUED"
value processing = "PROCESSING"
value completed = "COMPLETED"
value failed = "FAILED"

-- `_STATUS_NORMALIZE_MAP`
abbrev pub status_normalize_map : List (String × String)
status_normalize_map =
    ("PENDING", "QUEUED")
    ∷ ("RUNNING", "PROCESSING")
    ∷ ("SUCCEEDED", "COMPLETED")
    ∷ ("CANCELED", "FAILED")
    ∷ ("CANCELLED", "FAILED")
    ∷ []

-- `_STATUS_NORMALIZE_MAP.get(normalized, normalized)`
unfoldable pub alias : Text → List (String × String) → Text
unfolding equals
alias name [] = name
alias name ((old, new) ∷ rest) =
    let later = alias name rest in if equals (codes old) name then codes new else later

-- The member of `valid_statuses` that is spelled so.
unfoldable pub spelled : Text → List RenderJobStatus → Option RenderJobStatus
unfolding equals
spelled name [] = none
spelled name (s ∷ rest) =
    let later = spelled name rest in if equals (codes (value s)) name then some s else later

abbrev pub valid_statuses : List RenderJobStatus
valid_statuses = queued ∷ processing ∷ completed ∷ failed ∷ []

-- `normalize_to_enum`: none where a ValueError is raised, which the empty text also leads to.
unfoldable pub normalize_to_enum : String → Option RenderJobStatus
unfolding alias spelled upper strip
normalize_to_enum status =
    spelled (alias (upper (strip (codes status))) status_normalize_map) valid_statuses

-- `normalize_job_status`
unfoldable pub normalize_job_status : String → Option String
unfolding normalize_to_enum
normalize_job_status status = elim (normalize_to_enum status) [
  | some s ↦ some (value s)
  | none ↦ none
]

-- What the repository and the entity store: the text as it is where it names no status.
unfoldable pub stored : String → String
unfolding normalize_job_status
stored status = elim (normalize_job_status status) [ some s ↦ s | none ↦ status ]
