-- ===== src/Video/Gates.antt =====
-- What a user gets only after a completion, over every sequence of calls from an empty store.
use ctrlf_ai.Prelude.{
  String, ◌≡◌, Bool, true, false, ◌||◌, some, List, [], ◌∷◌, arith, Option-cases, inl, inr,
}
use ctrlf_ai.Prelude.Dict.{Dict, lookup}
use ctrlf_ai.Floats.{Floats}
use ctrlf_ai.Education.{Catalog, is_mandatory_4type}
use ctrlf_ai.Video.Models.{VideoProgressRecord, VideoProgressUpdateRequest}
use ctrlf_ai.Video.Store.{make_key, get}
use ctrlf_ai.Video.Service.{Settings, above_normal, update_progress, can_start_quiz}
use ctrlf_ai.Video.Trace.{Call, run, ever_completed, completes, step}
use ctrlf_ai.Video.Completion.{Justified, step-Justified}

module _ (fl : Floats) (cfg : Settings fl.F) where
  open fl use {F}

  run_from-Justified :
      (cs : List (Call F)) (s : Dict (VideoProgressRecord F)) (u t : String) (done : Bool)
      → Justified fl cfg u t done s
      → Justified fl cfg u t (done || ever_completed fl cfg cs (make_key u t) s) (run fl cfg cs s)
  unfolding run ever_completed
  run_from-Justified [] s u t done h r held e = ground (arith, h r held)
  run_from-Justified (c ∷ cs) s u t done h r held e = ground (
    arith,
    run_from-Justified cs (step fl cfg c s) u t (done || completes fl cfg c (make_key u t) s)
        (step-Justified fl cfg c s u t done h) r held e,
  )

  run-Justified :
      (cs : List (Call F)) (u t : String)
      → Justified fl cfg u t (ever_completed fl cfg cs (make_key u t) []) (run fl cfg cs [])
  run-Justified cs u t =
      run_from-Justified cs [] u t false (λ r held e. unfold get lookup in cc (held))

  -- After any calls on an empty store, the quiz of a training that the catalogue holds mandatory is
  -- open to a user only if one of the calls completed the video under their key.
  pub quiz_needs_completion :
      (cs : List (Call F)) (catalog : Catalog) (u t : String)
      → is_mandatory_4type catalog t ≡ true
      → (can_start_quiz fl catalog u t (run fl cfg cs [])).0 ≡ true
      → ever_completed fl cfg cs (make_key u t) [] ≡ true
  unfolding can_start_quiz
  quiz_needs_completion cs catalog u t mandatory allowed =
      elim (Option-cases (get u t (run fl cfg cs []))) [
        | inl missing ↦ ground arith
        | inr (r, found) ↦ ground (arith, run-Justified cs u t r found)
      ]

  -- After any calls on an empty store, seeking is shown as allowed only if one of the calls
  -- completed the video under the key.
  pub seek_needs_completion :
      (cs : List (Call F)) (u t : String) (r : VideoProgressRecord F)
      → get u t (run fl cfg cs []) ≡ some r
      → r.seek_allowed ≡ true
      → ever_completed fl cfg cs (make_key u t) [] ≡ true
  seek_needs_completion cs u t r found allowed = ground (arith, run-Justified cs u t r found)

  -- After any calls on an empty store, an update of a mandatory training at a rate above normal is
  -- accepted only if one of the calls completed the video under the key.
  pub fast_update_needs_completion :
      (cs : List (Call F)) (now : String) (timestamp : F) (request : VideoProgressUpdateRequest F)
      (r : VideoProgressRecord F)
      → get request.user_id request.training_id (run fl cfg cs []) ≡ some r
      → r.is_mandatory_edu ≡ true
      → above_normal fl request.playback_rate ≡ true
      → (update_progress fl cfg now timestamp request (run fl cfg cs [])).1.accepted ≡ true
      → ever_completed fl cfg cs (make_key request.user_id request.training_id) [] ≡ true
  unfolding update_progress
  fast_update_needs_completion cs now timestamp request r found mandatory fast accepted =
      ground (arith, run-Justified cs request.user_id request.training_id r found)
