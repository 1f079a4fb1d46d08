-- ===== src/Video/Refusals.antt =====
-- A refusal leaves the store as it was, and a start is refused for one reason only.
use ctrlf_ai.Prelude.{◌≡◌, false, arith}
use ctrlf_ai.Prelude.Dict.{Dict}
use ctrlf_ai.Floats.{Floats}
use ctrlf_ai.Video.Models.{VideoProgressRecord}
use ctrlf_ai.Video.Service.{Settings, start_video, update_progress, complete_video}
use ctrlf_ai.Video.Trace.{Call, start, update, complete, step, succeeds}

module _ (fl : Floats) (cfg : Settings fl.F) where
  open fl use {F}

  -- A start, an update or a completion that is refused, for whatever reason, changes nothing in the
  -- store.
  pub step_refused :
      (c : Call F) (s : Dict (VideoProgressRecord F))
      → succeeds fl cfg c s ≡ false
      → step fl cfg c s ≡ s
  unfolding step succeeds start_video update_progress complete_video
  step_refused (start now timestamp session_id catalog request) s h = ground arith
  step_refused (update now timestamp request) s h = ground arith
  step_refused (complete now request) s h = ground arith
