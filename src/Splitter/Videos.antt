-- ===== src/Splitter/Videos.antt =====
-- app/utils/video_splitter.py: the inputs of a video in groups that HeyGen accepts. `duration_of` is
-- the duration in the metadata of an input, 30 where it has none.
use Prim.{tt}
use ctrlf_ai.Prelude.{
  ◌≡◌, refl, sym, ap, ◌∙◌, ◌⊎◌, inl, inr, Bool, true, false, not, ◌&&◌, List, [], ◌∷◌, ◌++◌, length,
  arith, All, Bool-cases, if◌then◌else◌,
}
use mathlib.Core.List.{append_assoc}
use ctrlf_ai.Floats.{Floats}

module _ (fl : Floats) {V : Type 0} (duration_of : V → fl.F) where
  open fl use {F, lt, of_nat, plus}

  abbrev pub max_video_sec : F
  max_video_sec = of_nat 180

  abbrev is_empty : List V → Bool
  is_empty [] = true
  is_empty (v ∷ vs) = false

  -- The loop, with `current` and `acc`; the groups that it appends are its value.
  unfoldable pub split_from : List V → List V → F → List (List V)
  split_from [] current acc = if is_empty current then [] else current ∷ []
  split_from (v ∷ vs) current acc =
      let dur = duration_of v in
      let next = split_from vs (v ∷ []) (plus (of_nat 0) dur) in
      let same = split_from vs (current ++ (v ∷ [])) (plus acc dur) in
      if lt max_video_sec (plus acc dur) && not (is_empty current) then current ∷ next else same

  unfoldable pub split_video_inputs_by_duration : List V → List (List V)
  unfolding split_from
  split_video_inputs_by_duration video_inputs = split_from video_inputs [] (of_nat 0)

  -- The duration of a group, added up from its first input
  abbrev pub total_from : F → List V → F
  total_from acc [] = acc
  total_from acc (v ∷ vs) = total_from (plus acc (duration_of v)) vs

  abbrev pub concat : List (List V) → List V
  concat [] = []
  concat (group ∷ groups) = group ++ concat groups

  -- A group is not empty, and is not too long unless it is a single input.
  pub record IsGroup (group : List V) : Type 0 where
    pub filled : is_empty group ≡ false
    pub short : (length group ≡ 1) ⊎ (lt max_video_sec (total_from (of_nat 0) group) ≡ false)

  -- What the loop knows of the group that it fills
  IsOpen : List V → F → Type 0
  IsOpen [] acc = acc ≡ of_nat 0
  IsOpen (v ∷ vs) acc = (acc ≡ total_from (of_nat 0) (v ∷ vs)) × IsGroup (v ∷ vs)

  total_from-add :
      (acc : F) (vs : List V) (v : V)
      → total_from acc (vs ++ (v ∷ [])) ≡ plus (total_from acc vs) (duration_of v)
  total_from-add acc [] v = refl
  total_from-add acc (w ∷ vs) v = total_from-add (plus acc (duration_of w)) vs v

  one-IsOpen : (v : V) → IsOpen (v ∷ []) (plus (of_nat 0) (duration_of v))
  unfolding IsOpen
  one-IsOpen v = (refl, record { filled = refl; short = inl refl })

  add-IsOpen :
      (v : V) (current : List V) (acc : F)
      → IsOpen current acc
      → lt max_video_sec (plus acc (duration_of v)) && not (is_empty current) ≡ false
      → IsOpen (current ++ (v ∷ [])) (plus acc (duration_of v))
  unfolding IsOpen
  add-IsOpen v [] acc h fits = rw h (one-IsOpen v)
  add-IsOpen v (w ∷ ws) acc h fits =
      let sum = total_from-add (of_nat 0) (w ∷ ws) v in
      let e = ap (λ x. plus x (duration_of v)) h.0 ∙ sym sum in
      (e, record { filled = refl; short = inr (rw (← e) (ground (arith, fits))) })

  open-IsGroup :
      (current : List V) (acc : F) → IsOpen current acc → is_empty current ≡ false → IsGroup current
  unfolding IsOpen
  open-IsGroup [] acc h e = cc
  open-IsGroup (v ∷ vs) acc h e = h.1

  split_from-IsGroup :
      (vs current : List V) (acc : F)
      → IsOpen current acc
      → (concat (split_from vs current acc) ≡ current ++ vs)
        × All IsGroup (split_from vs current acc)
  unfolding split_from IsOpen
  split_from-IsGroup [] [] acc h = (refl, tt)
  split_from-IsGroup [] (v ∷ vs) acc h = (refl, (h.1, tt))
  split_from-IsGroup (v ∷ vs) current acc h =
      elim (Bool-cases (lt max_video_sec (plus acc (duration_of v)) && not (is_empty current))) [
        | inl e ↦
            let (joined, groups) =
              split_from-IsGroup vs (v ∷ []) (plus (of_nat 0) (duration_of v)) (one-IsOpen v) in
            rw (split_from, e)
              (
                ap (λ x. current ++ x) joined,
                (open-IsGroup current acc h (ground (arith, e)), groups),
              )
        | inr e ↦
            let (joined, groups) =
              split_from-IsGroup vs (current ++ (v ∷ [])) (plus acc (duration_of v))
                (add-IsOpen v current acc h e) in
            rw (split_from, e) (joined ∙ append_assoc current (v ∷ []) vs, groups)
      ]

  -- The groups are the inputs in their order, none lost, repeated or moved, and no group is empty;
  -- a group of several inputs lasts at most 180 seconds.
  pub split_video_inputs_by_duration-IsGroup :
      (inputs : List V)
      → (concat (split_video_inputs_by_duration inputs) ≡ inputs)
        × All IsGroup (split_video_inputs_by_duration inputs)
  unfolding split_video_inputs_by_duration IsOpen
  split_video_inputs_by_duration-IsGroup inputs = split_from-IsGroup inputs [] (of_nat 0) refl
