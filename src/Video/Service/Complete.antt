-- ===== src/Video/Service/Complete.antt =====
-- app/services/video_progress_service.py: `complete_video`.
use ctrlf_ai.Prelude.{String, true, false, none, some, if◌then◌else◌}
use ctrlf_ai.Prelude.Dict.{Dict}
use ctrlf_ai.Floats.{Floats, min_of}
use ctrlf_ai.Video.Models.{
  completed, is_completed, VideoRejectionReason, completion_threshold_not_met, session_not_found,
  VideoCompleteRequest, VideoCompleteResponse, VideoProgressRecord,
}
use ctrlf_ai.Video.Store
use ctrlf_ai.Video.Service.Rates.{Settings, calculate_progress}

module _ (fl : Floats) where
  open fl use {F, lt, of_nat, plus, minus}

  complete_refused : VideoCompleteRequest → F → VideoRejectionReason → VideoCompleteResponse F
  complete_refused request progress reason = record {
    user_id = request.user_id;
    training_id = request.training_id;
    completed = false;
    progress_percent = progress;
    quiz_unlocked = false;
    seek_allowed = false;
    completed_at = none;
    rejection_reason = some reason;
  }

  complete_shown : VideoCompleteRequest → VideoProgressRecord F → VideoCompleteResponse F
  complete_shown request r = record {
    user_id = request.user_id;
    training_id = request.training_id;
    completed = true;
    progress_percent = r.progress_percent;
    quiz_unlocked = r.quiz_unlocked;
    seek_allowed = r.seek_allowed;
    completed_at = r.completed_at;
    rejection_reason = none;
  }

  -- The record of a video that has just been completed.
  unfoldable pub finished :
      String → VideoCompleteRequest → F → VideoProgressRecord F → VideoProgressRecord F
  finished now request final_progress r = record r {
    state = completed;
    progress_percent = min_of fl final_progress (of_nat 100);
    watched_seconds = request.total_watched_seconds;
    last_position = request.final_position;
    seek_allowed = true;
    first_watch = false;
    completed_at = some now;
    updated_at = now;
    quiz_unlocked = if r.is_mandatory_edu then true else r.quiz_unlocked;
  }

  -- `complete_video` once the record has been found.
  unfoldable pub complete_found :
      Settings F
      → String
      → VideoCompleteRequest
      → VideoProgressRecord F
      → Dict (VideoProgressRecord F)
      → Dict (VideoProgressRecord F) × VideoCompleteResponse F
  unfolding complete_refused complete_shown finished calculate_progress
  complete_found cfg now request r s =
      let final_progress = calculate_progress fl request.total_watched_seconds r.total_duration in
      let r' = finished now request final_progress r in
      if is_completed r.state
      then (s, complete_shown request r)
      else if lt final_progress cfg.completion_threshold
      then (s, complete_refused request final_progress completion_threshold_not_met)
      else (Store.set request.user_id request.training_id r' s, complete_shown request r')

  unfoldable pub complete_video :
      Settings F
      → String
      → VideoCompleteRequest
      → Dict (VideoProgressRecord F)
      → Dict (VideoProgressRecord F) × VideoCompleteResponse F
  unfolding complete_found complete_refused
  complete_video cfg now request s = elim (Store.get request.user_id request.training_id s) [
    | none ↦ (s, complete_refused request (of_nat 0) session_not_found)
    | some r ↦ complete_found cfg now request r s
  ]
