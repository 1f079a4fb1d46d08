-- ===== src/Video/Rewatch.antt =====
-- What happens to a completed video that is started again.
use ctrlf_ai.Prelude.{ℕ, ◌<◌, ◌≤◌, String, ◌≡◌, ◌↔◌, refl, true, false, some, arith, eq_refl}
use ctrlf_ai.Prelude.Dict.{Dict}
use ctrlf_ai.Floats.{Floats, FloatLaws, percent, exact_limit}
use ctrlf_ai.Education.{Catalog, is_mandatory_4type}
use ctrlf_ai.Video.Models.{
  is_completed, VideoPlayStartRequest, VideoProgressUpdateRequest, VideoCompleteRequest,
  VideoProgressRecord, progress_regression, in_progress,
}
use ctrlf_ai.Video.Store.{make_key, get, set, get-set}
use ctrlf_ai.Video.Service.{
  Settings, default_settings, calculate_progress, start_video, update_progress, complete_video,
  can_start_quiz, fresh_record,
}

module _ (fl : Floats) where
  open fl use {F, lt, of_nat}

  get-set_self :
      (u t : String) (r : VideoProgressRecord F) (s : Dict (VideoProgressRecord F))
      → get u t (set u t r s) ≡ some r
  get-set_self u t r s = rw (get-set, eq_refl (make_key u t))

  abbrev restarted : String → VideoProgressRecord F → VideoProgressRecord F
  restarted now r = record r { state = in_progress; updated_at = now; first_watch = false }

  -- Starting a completed video stores its record as in progress.
  start_completed :
      (now : String) (timestamp : F) (session_id : String) (catalog : Catalog)
      (request : VideoPlayStartRequest F) (s : Dict (VideoProgressRecord F))
      (r : VideoProgressRecord F)
      → get request.user_id request.training_id s ≡ some r
      → is_completed r.state ≡ true
      → (start_video fl now timestamp session_id catalog request s).0
        ≡ set request.user_id request.training_id (restarted now r) s
  unfolding start_video
  start_completed now timestamp session_id catalog request s r found over = ground arith

  -- Starting a video that has been watched before and is in progress begins anew.
  start_rewatched :
      (now : String) (timestamp : F) (session_id : String) (catalog : Catalog)
      (request : VideoPlayStartRequest F) (s : Dict (VideoProgressRecord F))
      (r : VideoProgressRecord F)
      → get request.user_id request.training_id s ≡ some r
      → is_completed r.state ≡ false
      → r.first_watch ≡ false
      → (start_video fl now timestamp session_id catalog request s).0
        ≡ set request.user_id request.training_id
            (fresh_record fl now timestamp request
              (is_mandatory_4type catalog request.training_id)
              false)
            s
  unfolding start_video
  start_rewatched now timestamp session_id catalog request s r found open_ again = ground arith

  -- The first start opens the completed video again; the second, of the same user and training,
  -- begins anew.
  two_starts :
      (now now' : String) (timestamp timestamp' : F) (id id' : String) (catalog catalog' : Catalog)
      (request request' : VideoPlayStartRequest F) (s : Dict (VideoProgressRecord F))
      (r : VideoProgressRecord F)
      → request'.user_id ≡ request.user_id
      → request'.training_id ≡ request.training_id
      → get request.user_id request.training_id s ≡ some r
      → is_completed r.state ≡ true
      → (start_video fl now' timestamp' id' catalog' request'
          (start_video fl now timestamp id catalog request s).0).0
        ≡ set request'.user_id request'.training_id
            (fresh_record fl now' timestamp' request'
              (is_mandatory_4type catalog' request'.training_id)
              false)
            (set request.user_id request.training_id (restarted now r) s)
  two_starts now now' timestamp timestamp' id id' catalog catalog' request request' s r user
        training found over =
      let s1 = set request.user_id request.training_id (restarted now r) s in
      rw (start_completed now timestamp id catalog request s r found over) (
        start_rewatched now' timestamp' id' catalog' request' s1 (restarted now r)
          (rw (user, training)
            (get-set_self request.user_id request.training_id (restarted now r) s))
          refl refl)

  -- When a user who completed a training starts it twice, its quiz, for which the training is
  -- mandatory when it is asked for, is closed again, and seeking is no longer allowed, whatever
  -- duration and playback rate the two requests name, and whatever the catalogue held when they came.
  pub second_restart_locks_quiz :
      (now now' : String) (timestamp timestamp' : F) (id id' : String)
      (catalog catalog' later : Catalog) (request request' : VideoPlayStartRequest F)
      (s : Dict (VideoProgressRecord F)) (r : VideoProgressRecord F)
      → request'.user_id ≡ request.user_id
      → request'.training_id ≡ request.training_id
      → is_mandatory_4type later request'.training_id ≡ true
      → get request.user_id request.training_id s ≡ some r
      → is_completed r.state ≡ true
      → (q : VideoProgressRecord F) × (get request'.user_id request'.training_id
            (start_video fl now' timestamp' id' catalog' request'
              (start_video fl now timestamp id catalog request s).0).0
          ≡ some q)
        × (q.seek_allowed ≡ false)
        × ((can_start_quiz fl later request'.user_id request'.training_id
              (start_video fl now' timestamp' id' catalog' request'
                (start_video fl now timestamp id catalog request s).0).0).0
            ≡ false)
  unfolding can_start_quiz fresh_record
  second_restart_locks_quiz now now' timestamp timestamp' id id' catalog catalog' later request
        request' s r user training mandatory found over =
      let mandatory' = is_mandatory_4type catalog' request'.training_id in
      let q = fresh_record fl now' timestamp' request' mandatory' false in
      let s1 = set request.user_id request.training_id (restarted now r) s in
      rw
        (two_starts now now' timestamp timestamp' id id' catalog catalog' request request' s r user
          training found over)
        (
          q,
          get-set_self request'.user_id request'.training_id q s1,
          refl,
          ground (arith, get-set_self request'.user_id request'.training_id q s1),
        )

  -- What the percentage of a part is.
  calculate_progress-part :
      FloatLaws fl
      → (watched total : ℕ) → watched < total
      → total < exact_limit
      → lt (calculate_progress fl watched total) (of_nat 100) ≡ true
  unfolding calculate_progress
  calculate_progress-part laws watched total part small = ground (
    arith,
    laws.percent_part watched total part small,
    laws.lt_asymm (percent fl watched total) (of_nat 100),
  )

  calculate_progress-whole :
      FloatLaws fl
      → (watched total : ℕ) → 0 < total
      → total ≤ watched
      → lt (calculate_progress fl watched total) (of_nat 100) ≡ false
  unfolding calculate_progress
  calculate_progress-whole laws watched total pos whole =
      ground (arith, laws.percent_whole watched total pos whole, laws.lt_irrefl (of_nat 100))

  -- With the default settings and floats that obey their laws, a stored video that is not completed
  -- yet and has a positive duration, within the exact floats, is completed by exactly those requests
  -- that report at least its duration as watched, whenever they come.
  pub complete_iff_full_watch :
      FloatLaws fl
      → (now : String) (request : VideoCompleteRequest) (s : Dict (VideoProgressRecord F))
        (r : VideoProgressRecord F)
      → get request.user_id request.training_id s ≡ some r
      → is_completed r.state ≡ false
      → 0 < r.total_duration
      → r.total_duration < exact_limit
      → ((complete_video fl (default_settings fl) now request s).1.completed ≡ true)
        ↔ (r.total_duration ≤ request.total_watched_seconds)
  unfolding complete_video
  complete_iff_full_watch laws now request s r found open_ pos small = ground (
    arith,
    calculate_progress-part laws request.total_watched_seconds r.total_duration,
    calculate_progress-whole laws request.total_watched_seconds r.total_duration,
  )

  -- With floats that obey their laws, a completed video with full progress and a duration within the
  -- exact floats, once started again by its user, takes no progress: the next update, if it reports
  -- less than the whole duration, is refused as a regression.
  pub rewatch_refuses_progress :
      FloatLaws fl
      → (cfg : Settings F) (now now' : String) (timestamp timestamp' : F) (id : String)
        (catalog : Catalog) (start : VideoPlayStartRequest F)
        (request : VideoProgressUpdateRequest F) (s : Dict (VideoProgressRecord F))
        (r : VideoProgressRecord F)
      → start.user_id ≡ request.user_id
      → start.training_id ≡ request.training_id
      → get request.user_id request.training_id s ≡ some r
      → is_completed r.state ≡ true
      → lt r.progress_percent (of_nat 100) ≡ false
      → request.watched_seconds < r.total_duration
      → r.total_duration < exact_limit
      → (update_progress fl cfg now' timestamp' request
          (start_video fl now timestamp id catalog start s).0).1.rejection_reason
        ≡ some progress_regression
  unfolding update_progress
  rewatch_refuses_progress laws cfg now now' timestamp timestamp' id catalog start request s r eu et
        found over full part small =
      let begun = start_completed now timestamp id catalog start s r (rw (eu, et) found) over in
      let held = get-set_self request.user_id request.training_id (restarted now r) s in
      rw (update_progress, begun, eu, et, held)
        (ground (
          arith,
          calculate_progress-part laws request.watched_seconds r.total_duration part small,
          laws.le_trans (of_nat 100) r.progress_percent
              (calculate_progress fl request.watched_seconds r.total_duration),
        ))
