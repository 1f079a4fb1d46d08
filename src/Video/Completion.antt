-- ===== src/Video/Completion.antt =====
-- What only a completion can give: the quiz, seeking, and a rate above normal.
use ctrlf_ai.Prelude.{
  String, ◌≡◌, ap, sym, ◌∙◌, Bool, true, false, not, ◌||◌, some, ◌=ˢ◌, arith, eq_iff, Bool-cases,
  Option-cases, inl, inr, ◌⊎◌,
}
use ctrlf_ai.Prelude.Dict.{Dict, lookup}
use ctrlf_ai.Floats.{Floats}
use ctrlf_ai.Education.{Catalog}
use ctrlf_ai.Video.Models.{
  VideoPlayStartRequest, VideoProgressUpdateRequest, VideoCompleteRequest, VideoProgressRecord,
  is_completed,
}
use ctrlf_ai.Video.Store.{make_key, get, set, get-set}
use ctrlf_ai.Video.Service.{
  Settings, advanced, complete_found, finished, calculate_progress, start_fresh, fresh_record,
  start_video, update_progress, complete_video,
}
use ctrlf_ai.Video.Progress.{moved, update_found_cases}
use ctrlf_ai.Video.Trace.{Call, start, update, complete, step, completes}

module _ (fl : Floats) (cfg : Settings fl.F) where
  open fl use {F}

  -- What a record has that a new one has not.
  abbrev pub earned : VideoProgressRecord F → Bool
  earned r = r.quiz_unlocked || is_completed r.state || r.seek_allowed || not r.first_watch

  -- What is earned under the key has been completed before.
  abbrev pub Justified : String → String → Bool → Dict (VideoProgressRecord F) → Type 0
  Justified u t done s =
      (r : VideoProgressRecord F) → get u t s ≡ some r → earned r ≡ true → done ≡ true

  set-Justified :
      (a b u t : String) (r' : VideoProgressRecord F) (s : Dict (VideoProgressRecord F))
      (done now : Bool)
      → Justified u t done s
      → (make_key a b ≡ make_key u t → earned r' ≡ true → (done ≡ true) ⊎ (now ≡ true))
      → Justified u t (done || now) (set a b r' s)
  set-Justified a b u t r' s done now h k r held e =
      elim (Bool-cases (make_key a b =ˢ make_key u t)) [
        | inl same ↦
            let key : make_key a b ≡ make_key u t = (eq_iff (make_key a b) (make_key u t)).0 same in
            let one : r' ≡ r = cc (rw (get-set, same) at held) in
            let why = k key (rw (← one) at e) in ground arith
        | inr other ↦ ground (arith, h r (rw (get-set, other) at held))
      ]

  get-key :
      (a b u t : String) (s : Dict (VideoProgressRecord F)) (r : VideoProgressRecord F)
      → get a b s ≡ some r
      → make_key a b ≡ make_key u t
      → get u t s ≡ some r
  unfolding get
  get-key a b u t s r found e = ap (λ k. lookup k s) (sym e) ∙ found

  start_fresh_cases :
      (now : String) (timestamp : F) (session_id : String) (request : VideoPlayStartRequest F)
      (mandatory first : Bool) (s : Dict (VideoProgressRecord F))
      → ((start_fresh fl now timestamp session_id request mandatory first s).0 ≡ s)
        ⊎ ((start_fresh fl now timestamp session_id request mandatory first s).0
            ≡ set request.user_id request.training_id
                (fresh_record fl now timestamp request mandatory first)
                s)
  unfolding start_fresh
  start_fresh_cases now timestamp session_id request mandatory first s = ground arith

  start_fresh-Justified :
      (now : String) (timestamp : F) (session_id : String) (request : VideoPlayStartRequest F)
      (mandatory first : Bool) (s : Dict (VideoProgressRecord F)) (u t : String) (done : Bool)
      → Justified u t done s
      → (make_key request.user_id request.training_id ≡ make_key u t → first ≡ false → done ≡ true)
      → Justified u t
          (done || false)
          (start_fresh fl now timestamp session_id request mandatory first s).0
  start_fresh-Justified now timestamp session_id request mandatory first s u t done h k =
      elim (start_fresh_cases now timestamp session_id request mandatory first s) [
        | inl same ↦ rw same (λ r held e. ground (arith, h r held))
        | inr wrote ↦ rw wrote (
            set-Justified request.user_id request.training_id u t
              (fresh_record fl now timestamp request mandatory first) s done false h
              (λ key e. inl (k key (unfold fresh_record in ground arith))))
      ]

  start-Justified :
      (now : String) (timestamp : F) (session_id : String) (catalog : Catalog)
      (request : VideoPlayStartRequest F) (s : Dict (VideoProgressRecord F)) (u t : String)
      (done : Bool)
      → Justified u t done s
      → Justified u t (done || false) (start_video fl now timestamp session_id catalog request s).0
  unfolding start_video
  start-Justified now timestamp session_id catalog request s u t done h =
      elim (Option-cases (get request.user_id request.training_id s)) [
        | inl missing ↦
            rw (start_video, missing)
              (start_fresh-Justified now timestamp session_id request _ true s u t done h
                (λ key e. cc))
        | inr (old, found) ↦ elim (Bool-cases (is_completed old.state)) [
          | inl over ↦
              rw (start_video, found, over)
                (set-Justified request.user_id request.training_id u t _ s done false h
                  (λ key e. inl (h old (get-key _ _ u t s old found key) (ground arith))))
          | inr open_ ↦
              rw (start_video, found, open_)
                (start_fresh-Justified now timestamp session_id request _ old.first_watch s u t done
                  h (λ key first. h old (get-key _ _ u t s old found key) (ground arith)))
        ]
      ]

  update-Justified :
      (now : String) (timestamp : F) (request : VideoProgressUpdateRequest F)
      (s : Dict (VideoProgressRecord F)) (u t : String) (done : Bool)
      → Justified u t done s
      → Justified u t (done || false) (update_progress fl cfg now timestamp request s).0
  unfolding update_progress
  update-Justified now timestamp request s u t done h =
      elim (Option-cases (get request.user_id request.training_id s)) [
        | inl missing ↦ rw (update_progress, missing) (λ r held e. ground (arith, h r held))
        | inr (old, found) ↦ elim (update_found_cases fl cfg now timestamp request old s) [
          | inl same ↦ rw (update_progress, found) (rw same (λ r held e. ground (arith, h r held)))
          | inr (wrote, more) ↦
              rw (update_progress, found)
                (rw wrote (
                  set-Justified request.user_id request.training_id u t
                    (moved fl now timestamp request old) s done false h
                    (λ key e.
                      inl (h old (get-key _ _ u t s old found key) (unfold advanced in e)))))
        ]
      ]

  complete_found_cases :
      (now : String) (request : VideoCompleteRequest) (r : VideoProgressRecord F)
      (s : Dict (VideoProgressRecord F))
      → ((complete_found fl cfg now request r s).0 ≡ s)
        ⊎ (((complete_found fl cfg now request r s).1.completed ≡ true)
            × ((complete_found fl cfg now request r s).0
                ≡ set request.user_id request.training_id
                    (finished fl now request
                      (calculate_progress fl request.total_watched_seconds r.total_duration)
                      r)
                    s))
  unfolding complete_found
  complete_found_cases now request r s = ground arith

  complete-Justified :
      (now : String) (request : VideoCompleteRequest) (s : Dict (VideoProgressRecord F))
      (u t : String) (done : Bool)
      → Justified u t done s
      → Justified u t
          (done || completes fl cfg (complete now request) (make_key u t) s)
          (complete_video fl cfg now request s).0
  unfolding complete_video completes
  complete-Justified now request s u t done h =
      elim (Option-cases (get request.user_id request.training_id s)) [
        | inl missing ↦ rw (complete_video, missing) (λ r held e. ground (arith, h r held))
        | inr (old, found) ↦ elim (complete_found_cases now request old s) [
          | inl same ↦ rw (complete_video, found) (rw same (λ r held e. ground (arith, h r held)))
          | inr (success, wrote) ↦
              rw (complete_video, found)
                (rw (wrote, success)
                  (set-Justified request.user_id request.training_id u t _ s done _ h (λ key e.
                    inr (
                      ground (
                        arith,
                        eq_iff (make_key request.user_id request.training_id) (make_key u t),
                      )))))
        ]
      ]

  -- One call: what a record has earned was completed before, or by this call.
  pub step-Justified :
      (c : Call F) (s : Dict (VideoProgressRecord F)) (u t : String) (done : Bool)
      → Justified u t done s
      → Justified u t (done || completes fl cfg c (make_key u t) s) (step fl cfg c s)
  unfolding step completes
  step-Justified (start now timestamp session_id catalog request) s u t done h =
      start-Justified now timestamp session_id catalog request s u t done h
  step-Justified (update now timestamp request) s u t done h =
      update-Justified now timestamp request s u t done h
  step-Justified (complete now request) s u t done h = complete-Justified now request s u t done h
