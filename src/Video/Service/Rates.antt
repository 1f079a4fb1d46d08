-- ===== src/Video/Service/Rates.antt =====
-- app/services/video_progress_service.py: the settings, the percentage, and the checks of the advance
-- and of the playback rate.
use ctrlf_ai.Prelude.{ℕ, ◌-◌, String, Bool, false, not, ◌&&◌, leb, if◌then◌else◌}
use ctrlf_ai.Floats.{Floats, percent, min_of}
use ctrlf_ai.Video.Models.{VideoPlayStartResponse}

-- What a start comes to: the response, or the HTTPException with status 400.
pub data StartResult (F : Type 0) : Type 0 where
  started : VideoPlayStartResponse F → StartResult F
  rate_refused : F → String → StartResult F

-- The reasons that `can_start_quiz` gives.
pub data QuizReason (F : Type 0) : Type 0 where
  not_mandatory record_required unlocked video_completed : QuizReason F
  video_not_completed : F → QuizReason F

pub record Settings (F : Type 0) : Type 0 where
  pub completion_threshold : F
  pub surge_grace_seconds : F

module _ (fl : Floats) where
  open fl use {F, lt, of_nat, plus, minus}

  -- `__init__` with its default arguments.
  abbrev pub default_settings : Settings F
  default_settings = record { completion_threshold = of_nat 100; surge_grace_seconds = of_nat 5 }

  abbrev pub max_playback_rate_allowed : F
  max_playback_rate_allowed = of_nat 2

  abbrev pub max_playback_rate_mandatory_first_watch : F
  max_playback_rate_mandatory_first_watch = of_nat 1

  abbrev pub above_normal : F → Bool
  above_normal rate = lt (of_nat 1) rate

  -- `_calculate_progress`
  unfoldable pub calculate_progress : ℕ → ℕ → F
  calculate_progress watched_seconds total_duration =
      if leb total_duration 0
      then of_nat 0
      else min_of fl (percent fl watched_seconds total_duration) (of_nat 100)

  -- `_check_progress_surge`, without the text of the reason, which is only logged.
  unfoldable pub check_progress_surge : Settings F → ℕ → ℕ → F → F → Bool
  check_progress_surge cfg old_position new_position old_timestamp new_timestamp =
      let elapsed = minus new_timestamp old_timestamp in
      if not (lt (of_nat 0) elapsed)
      then false
      else if leb new_position old_position
      then false
      else lt (plus elapsed cfg.surge_grace_seconds) (of_nat (new_position - old_position))

  -- `_get_max_playback_rate`
  unfoldable pub get_max_playback_rate : Bool → Bool → F
  get_max_playback_rate is_mandatory first_watch =
      if is_mandatory && first_watch
      then max_playback_rate_mandatory_first_watch
      else max_playback_rate_allowed
