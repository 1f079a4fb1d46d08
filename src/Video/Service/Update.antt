-- ===== src/Video/Service/Update.antt =====
-- app/services/video_progress_service.py: `update_progress`.
use ctrlf_ai.Prelude.{String, Bool, true, false, ◌&&◌, Option, none, some, if◌then◌else◌}
use ctrlf_ai.Prelude.Dict.{Dict}
use ctrlf_ai.Floats.{Floats}
use ctrlf_ai.Video.Models.{
  not_started, is_completed, VideoRejectionReason, progress_regression, progress_surge,
  session_not_found, playback_rate_not_allowed, VideoProgressUpdateRequest,
  VideoProgressUpdateResponse, VideoProgressRecord,
}
use ctrlf_ai.Video.Store
use ctrlf_ai.Video.Service.Rates.{
  Settings, max_playback_rate_allowed, above_normal, calculate_progress, check_progress_surge,
  get_max_playback_rate,
}

module _ (fl : Floats) where
  open fl use {F, lt, of_nat, plus, minus}

  -- The response that shows a record as it is.
  unfoldable pub shown :
      VideoProgressUpdateRequest F
      → VideoProgressRecord F
      → Bool
      → Option VideoRejectionReason
      → Option String
      → F
      → VideoProgressUpdateResponse F
  shown request r accepted reason message max_rate = record {
    user_id = request.user_id;
    training_id = request.training_id;
    progress_percent = r.progress_percent;
    watched_seconds = r.watched_seconds;
    last_position = r.last_position;
    seek_allowed = r.seek_allowed;
    state = r.state;
    updated_at = r.updated_at;
    accepted = accepted;
    rejection_reason = reason;
    message = message;
    max_playback_rate = max_rate;
    playback_rate_enforced = false;
  }

  update_missing : String → VideoProgressUpdateRequest F → VideoProgressUpdateResponse F
  update_missing now request = record {
    user_id = request.user_id;
    training_id = request.training_id;
    progress_percent = of_nat 0;
    watched_seconds = 0;
    last_position = 0;
    seek_allowed = false;
    state = not_started;
    updated_at = now;
    accepted = false;
    rejection_reason = some session_not_found;
    message = none;
    max_playback_rate = of_nat 2;
    playback_rate_enforced = false;
  }

  -- The record after an accepted update.
  unfoldable pub advanced :
      String → F → VideoProgressUpdateRequest F → F → VideoProgressRecord F → VideoProgressRecord F
  advanced now timestamp request new_progress r = record r {
    watched_seconds = request.watched_seconds;
    progress_percent = new_progress;
    last_position = request.current_position;
    updated_at = now;
    last_update_timestamp = timestamp;
  }

  -- `update_progress` once the record has been found.
  unfoldable pub update_found :
      Settings F
      → String
      → F
      → VideoProgressUpdateRequest F
      → VideoProgressRecord F
      → Dict (VideoProgressRecord F)
      → Dict (VideoProgressRecord F) × VideoProgressUpdateResponse F
  unfolding shown get_max_playback_rate calculate_progress check_progress_surge advanced
  update_found cfg now timestamp request r s =
      let max_rate = get_max_playback_rate fl r.is_mandatory_edu r.first_watch in
      let new_progress = calculate_progress fl request.watched_seconds r.total_duration in
      let r' = advanced now timestamp request new_progress r in
      if is_completed r.state
      then (s, shown request r true none (some "이미 완료된 영상입니다.") (max_playback_rate_allowed fl))
      else if r.is_mandatory_edu && r.first_watch && above_normal fl request.playback_rate
      then (
        s,
        shown request r false (some playback_rate_not_allowed)
            (some "4대교육 최초 시청 시 배속(1.0x 초과)은 허용되지 않습니다.") max_rate,
      )
      else if lt new_progress r.progress_percent
      then (s, shown request r false (some progress_regression) none max_rate)
      else if check_progress_surge fl cfg r.last_position request.current_position
          r.last_update_timestamp timestamp
      then (s, shown request r false (some progress_surge) none max_rate)
      else (
        Store.set request.user_id request.training_id r' s,
        shown request r' true none none max_rate,
      )

  unfoldable pub update_progress :
      Settings F
      → String
      → F
      → VideoProgressUpdateRequest F
      → Dict (VideoProgressRecord F)
      → Dict (VideoProgressRecord F) × VideoProgressUpdateResponse F
  unfolding update_missing update_found
  update_progress cfg now timestamp request s =
      elim (Store.get request.user_id request.training_id s) [
        | none ↦ (s, update_missing now request)
        | some r ↦ update_found cfg now timestamp request r s
      ]
