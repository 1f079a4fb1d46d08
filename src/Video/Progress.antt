-- ===== src/Video/Progress.antt =====
-- Updates never take progress back.
use ctrlf_ai.Prelude.{
  String, ◌≡◌, ◌⊎◌, false, some, List, [], ◌∷◌, arith, ◌=ˢ◌, eq_iff, inl, inr, Bool-cases,
  Option-cases,
}
use ctrlf_ai.Prelude.Dict.{Dict}
use ctrlf_ai.Floats.{Floats, FloatLaws}
use ctrlf_ai.Video.Models.{VideoProgressUpdateRequest, VideoProgressRecord}
use ctrlf_ai.Video.Store
use ctrlf_ai.Video.Store.{make_key, get, get-set}
use ctrlf_ai.Video.Service.{Settings, calculate_progress, advanced, update_found, update_progress}

module _ (fl : Floats) where
  open fl use {F, lt}

  -- The second record has at least the progress of the first.
  abbrev pub NoLess : VideoProgressRecord F → VideoProgressRecord F → Type 0
  NoLess r r' = lt r'.progress_percent r.progress_percent ≡ false

  abbrev pub moved :
      String → F → VideoProgressUpdateRequest F → VideoProgressRecord F → VideoProgressRecord F
  moved now timestamp request r =
      advanced fl now timestamp request
        (calculate_progress fl request.watched_seconds r.total_duration) r

  -- An update changes nothing, or stores a record with at least the progress.
  pub update_found_cases :
      (cfg : Settings F) (now : String) (timestamp : F) (request : VideoProgressUpdateRequest F)
      (r : VideoProgressRecord F) (s : Dict (VideoProgressRecord F))
      → ((update_found fl cfg now timestamp request r s).0 ≡ s)
        ⊎ (((update_found fl cfg now timestamp request r s).0
              ≡ Store.set request.user_id request.training_id (moved now timestamp request r) s)
            × NoLess r (moved now timestamp request r))
  unfolding update_found
  update_found_cases cfg now timestamp request r s = ground arith

module _ (fl : Floats) (laws : FloatLaws fl) (cfg : Settings fl.F) where
  open fl use {F}

  set-NoLess :
      (u t u' t' : String) (r r' q : VideoProgressRecord F) (s : Dict (VideoProgressRecord F))
      → get u t s ≡ some r
      → NoLess fl r r'
      → get u' t' s ≡ some q
      → (q' : VideoProgressRecord F) × (get u' t' (Store.set u t r' s) ≡ some q') × NoLess fl q q'
  unfolding get
  set-NoLess u t u' t' r r' q s found no_less held =
      elim (Bool-cases (make_key u t =ˢ make_key u' t')) [
        | inl same ↦
            let key : make_key u t ≡ make_key u' t' =
              (eq_iff (make_key u t) (make_key u' t')).0 same in
            let one : r ≡ q = cc (rw key at found) in (r', rw (get-set, same), rw (← one) no_less)
        | inr other ↦ (q, rw (get-set, other) held, laws.lt_irrefl q.progress_percent)
      ]

  pub update-NoLess :
      (now : String) (timestamp : F) (request : VideoProgressUpdateRequest F)
      (s : Dict (VideoProgressRecord F)) (u t : String) (q : VideoProgressRecord F)
      → get u t s ≡ some q
      → (q' : VideoProgressRecord F) × (get u t (update_progress fl cfg now timestamp request s).0
          ≡ some q')
        × NoLess fl q q'
  unfolding update_progress
  update-NoLess now timestamp request s u t q held =
      elim (Option-cases (get request.user_id request.training_id s)) [
        | inl missing ↦ rw (update_progress, missing) (q, held, laws.lt_irrefl q.progress_percent)
        | inr (r, found) ↦
            rw (update_progress, found)
              (elim (update_found_cases fl cfg now timestamp request r s) [
                | inl same ↦ rw same (q, held, laws.lt_irrefl q.progress_percent)
                | inr (wrote, no_less) ↦ rw wrote (
                    set-NoLess request.user_id request.training_id u t r
                      (moved fl now timestamp request r) q s found no_less held)
              ])
      ]

  unfoldable pub update_all :
      List (String × F × VideoProgressUpdateRequest F)
      → Dict (VideoProgressRecord F)
      → Dict (VideoProgressRecord F)
  update_all [] s = s
  update_all ((now, timestamp, request) ∷ rest) s =
      update_all rest (update_progress fl cfg now timestamp request s).0

  -- With floats that obey their laws, whatever updates arrive, in whatever order and for whatever
  -- users, no record is lost and none ends with less progress than it had.
  pub update_all-NoLess :
      (requests : List (String × F × VideoProgressUpdateRequest F))
      (s : Dict (VideoProgressRecord F)) (u t : String) (q : VideoProgressRecord F)
      → get u t s ≡ some q
      → (q' : VideoProgressRecord F) × (get u t (update_all requests s) ≡ some q') × NoLess fl q q'
  unfolding update_all
  update_all-NoLess [] s u t q held = (q, held, laws.lt_irrefl q.progress_percent)
  update_all-NoLess ((now, timestamp, request) ∷ rest) s u t q held =
      let (q', held', here) = update-NoLess now timestamp request s u t q held in
      let (q'', held'', later) =
        update_all-NoLess rest (update_progress fl cfg now timestamp request s).0 u t q' held' in
      (q'', held'', laws.le_trans _ _ _ here later)
