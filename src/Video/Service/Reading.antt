-- ===== src/Video/Service/Reading.antt =====
-- app/services/video_progress_service.py: `get_status` and `can_start_quiz`.
use ctrlf_ai.Prelude.{String, Bool, true, false, not, Option, none, some, if◌then◌else◌}
use ctrlf_ai.Prelude.Dict.{Dict}
use ctrlf_ai.Floats.{Floats}
use ctrlf_ai.Education.{Catalog, is_mandatory_4type}
use ctrlf_ai.Video.Models.{is_completed, VideoStatusResponse, VideoProgressRecord}
use ctrlf_ai.Video.Store
use ctrlf_ai.Video.Service.Rates.{
  QuizReason, not_mandatory, record_required, unlocked, video_completed, video_not_completed,
}

module _ (fl : Floats) where
  open fl use {F, lt, of_nat, plus, minus}

  status_of : VideoProgressRecord F → VideoStatusResponse F
  status_of r = record {
    user_id = r.user_id;
    training_id = r.training_id;
    total_duration = r.total_duration;
    watched_seconds = r.watched_seconds;
    progress_percent = r.progress_percent;
    last_position = r.last_position;
    state = r.state;
    seek_allowed = r.seek_allowed;
    quiz_unlocked = r.quiz_unlocked;
    is_mandatory_edu = r.is_mandatory_edu;
    completed_at = r.completed_at;
    updated_at = r.updated_at;
  }

  unfoldable pub get_status :
      String → String → Dict (VideoProgressRecord F) → Option (VideoStatusResponse F)
  unfolding status_of
  get_status user_id training_id s = elim (Store.get user_id training_id s) [
    | none ↦ none
    | some r ↦ some (status_of r)
  ]

  unfoldable pub can_start_quiz_found : Option (VideoProgressRecord F) → Bool × QuizReason F
  can_start_quiz_found none = (false, record_required)
  can_start_quiz_found (some r) =
      if r.quiz_unlocked
      then (true, unlocked)
      else if is_completed r.state
      then (true, video_completed)
      else (false, video_not_completed r.progress_percent)

  unfoldable pub can_start_quiz :
      Catalog → String → String → Dict (VideoProgressRecord F) → Bool × QuizReason F
  unfolding can_start_quiz_found
  can_start_quiz catalog user_id training_id s =
      if not (is_mandatory_4type catalog training_id)
      then (true, not_mandatory)
      else can_start_quiz_found (Store.get user_id training_id s)
