-- ===== src/Tests/VideoRuns.antt =====
-- The video service on a mandatory training of ten minutes, in fixed-point numbers.
use ctrlf_ai.Prelude.{
  ◌*◌, ◌&&◌, ◌=ˢ◌, if◌then◌else◌, ℕ, ◌≤◌, true, false, some, none, List, [], ◌∷◌, ◌≡◌, ◌↔◌, refl,
  arith,
}
use ctrlf_ai.Prelude.Dict.{Dict, lookup, insert}
use ctrlf_ai.Floats.FixedPoint.{fixed_point, fixed_point-laws}
use ctrlf_ai.Education.{init, has_prefix, is_mandatory_4type}
use ctrlf_ai.Video.Models.{
  in_progress, VideoProgressRecord, VideoPlayStartRequest, VideoProgressUpdateRequest,
  VideoCompleteRequest, progress_regression,
}
use ctrlf_ai.Video.Store.{make_key, get, set}
use ctrlf_ai.Video.Store.Keys.{get-set_pair, colon_free}
use ctrlf_ai.Video.Service.{
  default_settings, start_video, update_progress, complete_video, can_start_quiz,
}
use ctrlf_ai.Video.Trace.{Call, start, update, complete, step, run, succeeds, ever_completed}
use ctrlf_ai.Video.Gates.{quiz_needs_completion, seek_needs_completion}
use ctrlf_ai.Video.Progress.{update_all, update_all-NoLess, NoLess}
use ctrlf_ai.Video.Refusals.{step_refused}
use ctrlf_ai.Video.Rewatch.{
  second_restart_locks_quiz, complete_iff_full_watch, rewatch_refuses_progress,
}

abbrev F : Type 0
F = ℕ × ℕ

abbrev at_second : ℕ → F
at_second n = (1000 * n, 0)

abbrev begin_request : VideoPlayStartRequest F
begin_request = record {
  user_id = "kim";
  training_id = "EDU-SEC-1";
  total_duration = 600;
  is_mandatory_edu = true;
  playback_rate = at_second 1;
}

abbrev half_request : VideoProgressUpdateRequest F
half_request = record {
  user_id = "kim";
  training_id = "EDU-SEC-1";
  current_position = 300;
  watched_seconds = 300;
  playback_rate = at_second 1;
}

abbrev end_request : VideoCompleteRequest
end_request = record {
  user_id = "kim";
  training_id = "EDU-SEC-1";
  final_position = 600;
  total_watched_seconds = 600;
}

abbrev watched : List (Call F)
watched =
    start "09:00" (at_second 0) "s1" init begin_request
    ∷ update "09:05" (at_second 300) half_request
    ∷ complete "09:10" end_request
    ∷ []

abbrev begun : List (Call F)
begun = start "09:00" (at_second 0) "s1" init begin_request ∷ []

abbrev after : List (Call F) → Dict (VideoProgressRecord F)
after calls = run fixed_point (default_settings fixed_point) calls []

quiz_opens : (can_start_quiz fixed_point init "kim" "EDU-SEC-1" (after watched)).0 ≡ true
unfolding can_start_quiz run step start_video update_progress complete_video get set make_key lookup
    insert is_mandatory_4type has_prefix
quiz_opens = refl

quiz_starts_closed : (can_start_quiz fixed_point init "kim" "EDU-SEC-1" (after [])).0 ≡ false
unfolding can_start_quiz run step start_video update_progress complete_video get set make_key lookup
    insert is_mandatory_4type has_prefix
quiz_starts_closed = refl

is_listed : is_mandatory_4type init "EDU-SEC-1" ≡ true
unfolding is_mandatory_4type lookup has_prefix
is_listed = refl

quiz_needs_completion_example :
    ever_completed fixed_point
      (default_settings fixed_point)
      watched
      (make_key "kim" "EDU-SEC-1")
      []
    ≡ true
quiz_needs_completion_example =
    quiz_needs_completion fixed_point (default_settings fixed_point) watched init "kim" "EDU-SEC-1"
      is_listed quiz_opens

abbrev blank : VideoProgressRecord F
blank = record {
  user_id = "kim";
  training_id = "EDU-SEC-1";
  video_id = none;
  total_duration = 600;
  watched_seconds = 0;
  progress_percent = at_second 0;
  last_position = 0;
  state = in_progress;
  seek_allowed = false;
  quiz_unlocked = false;
  is_mandatory_edu = true;
  first_watch = true;
  last_final_segment_time = 0;
  created_at = "09:00";
  updated_at = "09:00";
  completed_at = none;
  last_update_timestamp = at_second 0;
}

abbrev held : List (Call F) → VideoProgressRecord F
held calls = elim (get "kim" "EDU-SEC-1" (after calls)) [ some r ↦ r | none ↦ blank ]

holds : get "kim" "EDU-SEC-1" (after watched) ≡ some (held watched)
unfolding can_start_quiz run step start_video update_progress complete_video get set make_key lookup
    insert is_mandatory_4type has_prefix
holds = refl

holds_started : get "kim" "EDU-SEC-1" (after begun) ≡ some (held begun)
unfolding can_start_quiz run step start_video update_progress complete_video get set make_key lookup
    insert is_mandatory_4type has_prefix
holds_started = refl

seek_needs_completion_example :
    ever_completed fixed_point
      (default_settings fixed_point)
      watched
      (make_key "kim" "EDU-SEC-1")
      []
    ≡ true
unfolding can_start_quiz run step start_video update_progress complete_video get set make_key lookup
    insert is_mandatory_4type has_prefix
seek_needs_completion_example =
    seek_needs_completion fixed_point (default_settings fixed_point) watched "kim" "EDU-SEC-1"
      (held watched) holds refl

-- A second viewing, faster.
abbrev rewatched : List (Call F)
rewatched =
    start "09:00" (at_second 0) "s1" init begin_request
    ∷ complete "09:10" end_request
    ∷ start "10:00" (at_second 3600) "s2" init begin_request
    ∷ []

abbrev fast_request : VideoProgressUpdateRequest F
fast_request = record {
  user_id = "kim";
  training_id = "EDU-SEC-1";
  current_position = 600;
  watched_seconds = 600;
  playback_rate = at_second 2;
}

holds_rewatched : get "kim" "EDU-SEC-1" (after rewatched) ≡ some (held rewatched)
unfolding can_start_quiz run step start_video update_progress complete_video get set make_key lookup
    insert is_mandatory_4type has_prefix
holds_rewatched = refl

update_all-NoLess_example :
    (q : VideoProgressRecord F) × (get "kim" "EDU-SEC-1" (
        update_all fixed_point fixed_point-laws
          (default_settings fixed_point)
          (("09:05", at_second 300, half_request) ∷ ("09:06", at_second 360, fast_request) ∷ [])
          (after begun))
      ≡ some q)
    × NoLess fixed_point (held begun) q
update_all-NoLess_example =
    update_all-NoLess fixed_point fixed_point-laws (default_settings fixed_point)
      (("09:05", at_second 300, half_request) ∷ ("09:06", at_second 360, fast_request) ∷ [])
      (after begun) "kim" "EDU-SEC-1" (held begun) holds_started

-- Twice normal speed is refused on the first viewing.
step_refused_example :
    step fixed_point
      (default_settings fixed_point)
      (update "09:06" (at_second 360) fast_request)
      (after begun)
    ≡ after begun
unfolding can_start_quiz run step start_video update_progress complete_video get set make_key lookup
    insert is_mandatory_4type has_prefix succeeds
step_refused_example =
    step_refused fixed_point (default_settings fixed_point)
      (update "09:06" (at_second 360) fast_request) (after begun) refl

-- Another start, for a video of another duration.
abbrev longer_request : VideoPlayStartRequest F
longer_request = record begin_request { total_duration = 900 }

second_restart_locks_quiz_example :
    (q : VideoProgressRecord F) × (get "kim" "EDU-SEC-1"
        (start_video fixed_point "11:00"
          (at_second 7200)
          "s3"
          init
          longer_request
          (start_video fixed_point "10:00"
            (at_second 3600)
            "s2"
            init
            begin_request
            (after watched)).0).0
      ≡ some q)
    × (q.seek_allowed ≡ false)
    × ((can_start_quiz fixed_point init "kim" "EDU-SEC-1"
          (start_video fixed_point "11:00"
            (at_second 7200)
            "s3"
            init
            longer_request
            (start_video fixed_point "10:00"
              (at_second 3600)
              "s2"
              init
              begin_request
              (after watched)).0).0).0
        ≡ false)
unfolding can_start_quiz run step start_video update_progress complete_video get set make_key lookup
    insert is_mandatory_4type has_prefix
second_restart_locks_quiz_example =
    second_restart_locks_quiz fixed_point "10:00" "11:00" (at_second 3600) (at_second 7200) "s2"
      "s3" init init init begin_request longer_request (after watched) (held watched) refl refl
      is_listed holds refl

complete_iff_full_watch_example :
    ((complete_video fixed_point
        (default_settings fixed_point)
        "09:01"
        end_request
        (after begun)).1.completed
      ≡ true)
    ↔ (600 ≤ 600)
unfolding can_start_quiz run step start_video update_progress complete_video get set make_key lookup
    insert is_mandatory_4type has_prefix
complete_iff_full_watch_example =
    complete_iff_full_watch fixed_point fixed_point-laws "09:01" end_request (after begun)
      (held begun) holds_started refl (omega arith) (omega arith)

rewatch_refuses_progress_example :
    (update_progress fixed_point
      (default_settings fixed_point)
      "10:05"
      (at_second 3900)
      half_request
      (start_video fixed_point "10:00"
        (at_second 3600)
        "s2"
        init
        begin_request
        (after watched)).0).1.rejection_reason
    ≡ some progress_regression
unfolding can_start_quiz run step start_video update_progress complete_video get set make_key lookup
    insert is_mandatory_4type has_prefix
rewatch_refuses_progress_example =
    rewatch_refuses_progress fixed_point fixed_point-laws (default_settings fixed_point) "10:00"
      "10:05" (at_second 3600) (at_second 3900) "s2" init begin_request half_request (after watched)
      (held watched) refl refl holds refl refl (omega arith) (omega arith)

abbrev stored_seven : Dict ℕ
stored_seven = set "kim" "EDU-SEC-1" 7 []

get-set_pair_example : get "lee" "EDU-SEC-1" stored_seven ≡ (
    if ("kim" =ˢ "lee") && ("EDU-SEC-1" =ˢ "EDU-SEC-1") then some 7 else get "lee" "EDU-SEC-1" [])
unfolding colon_free
get-set_pair_example = get-set_pair "kim" "lee" "EDU-SEC-1" "EDU-SEC-1" 7 [] refl refl
