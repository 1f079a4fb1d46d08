-- ===== src/Video/Service.antt =====
-- `VideoProgressService`. A handler takes the readings of the clock (`now` is the ISO text,
-- `timestamp` the float of `time.time()`), the generated session id where there is one, the
-- catalogue, and the store; it returns the new store and the response. The objects of the store are
-- changed in place and stored again under their key, which is one update of the store. Logging is
-- left out.
pub mod Rates
pub mod Start
pub mod Update
pub mod Complete
pub mod Reading
pub use Rates.{
  StartResult, started, rate_refused, QuizReason, not_mandatory, record_required, unlocked,
  video_completed, video_not_completed, Settings,
}
unfoldable pub use Rates.{
  default_settings, max_playback_rate_allowed, max_playback_rate_mandatory_first_watch,
  above_normal, calculate_progress, check_progress_surge, get_max_playback_rate,
}
unfoldable pub use Start.{restart, fresh_record, start_fresh, start_video}
unfoldable pub use Update.{shown, advanced, update_found, update_progress}
unfoldable pub use Complete.{finished, complete_found, complete_video}
unfoldable pub use Reading.{get_status, can_start_quiz_found, can_start_quiz}
