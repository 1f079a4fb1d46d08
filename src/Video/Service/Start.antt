-- ===== src/Video/Service/Start.antt =====
-- app/services/video_progress_service.py: `start_video`.
use ctrlf_ai.Prelude.{String, Bool, true, false, ◌&&◌, Option, none, some, if◌then◌else◌}
use ctrlf_ai.Prelude.Dict.{Dict}
use ctrlf_ai.Floats.{Floats}
use ctrlf_ai.Education.{Catalog, is_mandatory_4type}
use ctrlf_ai.Video.Models.{in_progress, is_completed, VideoPlayStartRequest, VideoProgressRecord}
use ctrlf_ai.Video.Store
use ctrlf_ai.Video.Service.Rates.{
  StartResult, started, rate_refused, max_playback_rate_allowed, above_normal,
  get_max_playback_rate,
}

module _ (fl : Floats) where
  open fl use {F, lt, of_nat, plus, minus}

  -- `start_video` when the record is that of a completed video.
  unfoldable pub restart :
      String
      → String
      → VideoPlayStartRequest F
      → VideoProgressRecord F
      → Dict (VideoProgressRecord F)
      → Dict (VideoProgressRecord F) × StartResult F
  restart now session_id request existing s =
      let again = record existing { state = in_progress; updated_at = now; first_watch = false } in
      (
        Store.set request.user_id request.training_id again s,
        started (record {
          session_id = session_id;
          user_id = request.user_id;
          training_id = request.training_id;
          state = in_progress;
          seek_allowed = existing.seek_allowed;
          created_at = now;
          first_watch = false;
          max_playback_rate = max_playback_rate_allowed fl;
          playback_rate_reason = none;
        }),
      )

  -- The record that a start makes.
  unfoldable pub fresh_record :
      String → F → VideoPlayStartRequest F → Bool → Bool → VideoProgressRecord F
  fresh_record now timestamp request is_mandatory first_watch = record {
    user_id = request.user_id;
    training_id = request.training_id;
    video_id = some request.training_id;
    total_duration = request.total_duration;
    watched_seconds = 0;
    progress_percent = of_nat 0;
    last_position = 0;
    state = in_progress;
    seek_allowed = false;
    quiz_unlocked = false;
    is_mandatory_edu = is_mandatory;
    first_watch = first_watch;
    last_final_segment_time = 0;
    created_at = now;
    updated_at = now;
    completed_at = none;
    last_update_timestamp = timestamp;
  }

  -- `start_video` otherwise.
  unfoldable pub start_fresh :
      String
      → F
      → String
      → VideoPlayStartRequest F
      → Bool
      → Bool
      → Dict (VideoProgressRecord F)
      → Dict (VideoProgressRecord F) × StartResult F
  unfolding get_max_playback_rate fresh_record
  start_fresh now timestamp session_id request is_mandatory first_watch s =
      let max_rate = get_max_playback_rate fl is_mandatory first_watch in
      if is_mandatory && first_watch && above_normal fl request.playback_rate
      then (s, rate_refused max_rate "MANDATORY_FIRST_WATCH")
      else (
        Store.set request.user_id request.training_id
            (fresh_record now timestamp request is_mandatory first_watch) s,
        started (record {
          session_id = session_id;
          user_id = request.user_id;
          training_id = request.training_id;
          state = in_progress;
          seek_allowed = false;
          created_at = now;
          first_watch = first_watch;
          max_playback_rate = max_rate;
          playback_rate_reason = none;
        }),
      )

  start_existing :
      String
      → F
      → String
      → VideoPlayStartRequest F
      → Bool
      → Option (VideoProgressRecord F)
      → Dict (VideoProgressRecord F)
      → Dict (VideoProgressRecord F) × StartResult F
  unfolding restart start_fresh
  start_existing now timestamp session_id request is_mandatory none s =
      start_fresh now timestamp session_id request is_mandatory true s
  start_existing now timestamp session_id request is_mandatory (some existing) s =
      if is_completed existing.state
      then restart now session_id request existing s
      else start_fresh now timestamp session_id request is_mandatory existing.first_watch s

  unfoldable pub start_video :
      String
      → F
      → String
      → Catalog
      → VideoPlayStartRequest F
      → Dict (VideoProgressRecord F)
      → Dict (VideoProgressRecord F) × StartResult F
  unfolding start_existing
  start_video now timestamp session_id catalog request s =
      start_existing now timestamp session_id request
        (is_mandatory_4type catalog request.training_id)
        (Store.get request.user_id request.training_id s) s
