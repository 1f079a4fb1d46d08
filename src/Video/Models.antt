-- ===== src/Video/Models.antt =====
-- app/models/video_progress.py. `F` is the type of floats. What pydantic checks when a request is
-- built (ints are not negative, the duration is positive, the rate lies between 0.5 and 2.0) is no
-- part of the records; a theorem that needs it says so.
use ctrlf_ai.Prelude.{ℕ, String, Bool, true, false, Option}

pub data VideoProgressState : Type 0 where
  not_started in_progress completed : VideoProgressState

pub data VideoRejectionReason : Type 0 where
  progress_regression progress_surge completion_threshold_not_met : VideoRejectionReason
  session_not_found already_completed playback_rate_not_allowed : VideoRejectionReason

pub record VideoPlayStartRequest (F : Type 0) : Type 0 where
  pub user_id : String
  pub training_id : String
  pub total_duration : ℕ
  pub is_mandatory_edu : Bool
  pub playback_rate : F

pub record VideoPlayStartResponse (F : Type 0) : Type 0 where
  pub session_id : String
  pub user_id : String
  pub training_id : String
  pub state : VideoProgressState
  pub seek_allowed : Bool
  pub created_at : String
  pub first_watch : Bool
  pub max_playback_rate : F
  pub playback_rate_reason : Option String

pub record VideoProgressUpdateRequest (F : Type 0) : Type 0 where
  pub user_id : String
  pub training_id : String
  pub current_position : ℕ
  pub watched_seconds : ℕ
  pub playback_rate : F

pub record VideoProgressUpdateResponse (F : Type 0) : Type 0 where
  pub user_id : String
  pub training_id : String
  pub progress_percent : F
  pub watched_seconds : ℕ
  pub last_position : ℕ
  pub seek_allowed : Bool
  pub state : VideoProgressState
  pub updated_at : String
  pub accepted : Bool
  pub rejection_reason : Option VideoRejectionReason
  pub message : Option String
  pub max_playback_rate : F
  pub playback_rate_enforced : Bool

pub record VideoCompleteRequest : Type 0 where
  pub user_id : String
  pub training_id : String
  pub final_position : ℕ
  pub total_watched_seconds : ℕ

pub record VideoCompleteResponse (F : Type 0) : Type 0 where
  pub user_id : String
  pub training_id : String
  pub completed : Bool
  pub progress_percent : F
  pub quiz_unlocked : Bool
  pub seek_allowed : Bool
  pub completed_at : Option String
  pub rejection_reason : Option VideoRejectionReason

pub record VideoStatusResponse (F : Type 0) : Type 0 where
  pub user_id : String
  pub training_id : String
  pub total_duration : ℕ
  pub watched_seconds : ℕ
  pub progress_percent : F
  pub last_position : ℕ
  pub state : VideoProgressState
  pub seek_allowed : Bool
  pub quiz_unlocked : Bool
  pub is_mandatory_edu : Bool
  pub completed_at : Option String
  pub updated_at : String

pub record VideoProgressRecord (F : Type 0) : Type 0 where
  pub user_id : String
  pub training_id : String
  pub video_id : Option String
  pub total_duration : ℕ
  pub watched_seconds : ℕ
  pub progress_percent : F
  pub last_position : ℕ
  pub state : VideoProgressState
  pub seek_allowed : Bool
  pub quiz_unlocked : Bool
  pub is_mandatory_edu : Bool
  pub first_watch : Bool
  pub last_final_segment_time : ℕ
  pub created_at : String
  pub updated_at : String
  pub completed_at : Option String
  pub last_update_timestamp : F

abbrev pub is_completed : VideoProgressState → Bool
is_completed completed = true
is_completed _ = false
