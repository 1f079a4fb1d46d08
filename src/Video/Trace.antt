-- ===== src/Video/Trace.antt =====
-- The calls of the service as a sequence. Each call carries what it reads of the outside: the
-- clock, the generated session id, and the catalogue as it is at that moment.
use ctrlf_ai.Prelude.{String, Bool, true, false, ◌||◌, ◌&&◌, List, [], ◌∷◌, ◌=ˢ◌}
use ctrlf_ai.Prelude.Dict.{Dict}
use ctrlf_ai.Floats.{Floats}
use ctrlf_ai.Education.{Catalog}
use ctrlf_ai.Video.Models.{
  VideoPlayStartRequest, VideoProgressUpdateRequest, VideoCompleteRequest, VideoProgressRecord,
}
use ctrlf_ai.Video.Store.{make_key}
use ctrlf_ai.Video.Service.{
  StartResult, started, rate_refused, Settings, start_video, update_progress, complete_video,
}

pub data Call (F : Type 0) : Type 0 where
  start : String → F → String → Catalog → VideoPlayStartRequest F → Call F
  update : String → F → VideoProgressUpdateRequest F → Call F
  complete : String → VideoCompleteRequest → Call F

abbrev pub is_started : {F : Type 0} → StartResult F → Bool
is_started (started r) = true
is_started (rate_refused m reason) = false

module _ (fl : Floats) (cfg : Settings fl.F) where
  open fl use {F}

  -- The store after a call.
  unfoldable pub step : Call F → Dict (VideoProgressRecord F) → Dict (VideoProgressRecord F)
  step (start now timestamp session_id catalog request) s =
      (start_video fl now timestamp session_id catalog request s).0
  step (update now timestamp request) s = (update_progress fl cfg now timestamp request s).0
  step (complete now request) s = (complete_video fl cfg now request s).0

  -- Whether the call was answered with success.
  unfoldable pub succeeds : Call F → Dict (VideoProgressRecord F) → Bool
  succeeds (start now timestamp session_id catalog request) s =
      is_started (start_video fl now timestamp session_id catalog request s).1
  succeeds (update now timestamp request) s =
      (update_progress fl cfg now timestamp request s).1.accepted
  succeeds (complete now request) s = (complete_video fl cfg now request s).1.completed

  -- Whether the call completes the video that is stored under the key.
  unfoldable pub completes : Call F → String → Dict (VideoProgressRecord F) → Bool
  completes (start now timestamp session_id catalog request) key s = false
  completes (update now timestamp request) key s = false
  completes (complete now request) key s =
      make_key request.user_id request.training_id =ˢ key
      && (complete_video fl cfg now request s).1.completed

  unfoldable pub run : List (Call F) → Dict (VideoProgressRecord F) → Dict (VideoProgressRecord F)
  run [] s = s
  run (c ∷ cs) s = run cs (step c s)

  -- Whether some call of the sequence completed the video under the key.
  unfoldable pub ever_completed : List (Call F) → String → Dict (VideoProgressRecord F) → Bool
  ever_completed [] key s = false
  ever_completed (c ∷ cs) key s = completes c key s || ever_completed cs key (step c s)
