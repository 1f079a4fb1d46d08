-- ===== src/Render/Spec/Valid.antt =====
-- app/models/render_spec.py: what `validate_render_spec` makes of the scenes.
use Prim.{Unit, tt}
use ctrlf_ai.Prelude.{◌≡◌, refl, ap, true, false, List, [], ◌∷◌, arith, Bool-cases, inl, inr}
use ctrlf_ai.Floats.{Floats}
use ctrlf_ai.Render.Spec.{
  RenderScene, RenderSpec, is_instant, validate_and_normalize_scene, validate_scenes,
  validate_render_spec,
}

module _ (fl : Floats) (default : fl.F) where
  open fl use {F, lt, of_nat}

  -- A scene is as it was but for its duration, which is positive afterwards and the same where it
  -- was positive before.
  pub record IsNormalized (before after : RenderScene F) : Type 0 where
    pub positive : is_instant fl after ≡ false
    pub same : is_instant fl before ≡ false → after ≡ before
    pub rest : record after { duration_sec = before.duration_sec } ≡ before

  abbrev pub AreNormalized : List (RenderScene F) → List (RenderScene F) → Type 0
  AreNormalized [] [] = Unit
  AreNormalized [] (after ∷ afters) = ⊥
  AreNormalized (before ∷ befores) [] = ⊥
  AreNormalized (before ∷ befores) (after ∷ afters) =
      IsNormalized before after × AreNormalized befores afters

  scene-IsNormalized :
      (scene : RenderScene F)
      → lt (of_nat 0) default ≡ true
      → IsNormalized scene (validate_and_normalize_scene fl default scene).0
  unfolding validate_and_normalize_scene
  scene-IsNormalized scene positive = elim (Bool-cases (is_instant fl scene)) [
    | inl e ↦
        rw (validate_and_normalize_scene, e)
          (record {
            positive = unfold is_instant in rw positive refl;
            same = λ q. absurd (ground (arith, e, q));
            rest = refl;
          })
    | inr e ↦
        rw (validate_and_normalize_scene, e)
          (record { positive = e; same = λ q. refl; rest = refl })
  ]

  validate_scenes-AreNormalized :
      (scenes : List (RenderScene F))
      → lt (of_nat 0) default ≡ true
      → AreNormalized scenes (validate_scenes fl default scenes).0
  unfolding validate_scenes
  validate_scenes-AreNormalized [] positive = tt
  validate_scenes-AreNormalized (scene ∷ scenes) positive =
      (scene-IsNormalized scene positive, validate_scenes-AreNormalized scenes positive)

  -- Validating scenes that are all of positive duration leaves them as they are.
  validate_scenes-same :
      (before after : List (RenderScene F))
      → AreNormalized before after
      → (validate_scenes fl default after).0 ≡ after
  unfolding validate_scenes validate_and_normalize_scene
  validate_scenes-same [] [] h = refl
  validate_scenes-same [] (after ∷ afters) h = absurd h
  validate_scenes-same (before ∷ befores) [] h = absurd h
  validate_scenes-same (before ∷ befores) (after ∷ afters) h =
      rw (validate_scenes, validate_and_normalize_scene, h.0.positive)
        (ap (◌∷◌ after) (validate_scenes-same befores afters h.1))

  -- With a default duration above zero, `validate_render_spec` keeps every scene in its place, with
  -- all that it has but its duration. Every duration is positive afterwards, a positive one is
  -- kept, and validating once more changes nothing.
  pub validate_render_spec-AreNormalized :
      (sum : List F → F) (spec : RenderSpec F)
      → lt (of_nat 0) default ≡ true
      → let valid = (validate_render_spec fl sum default spec).0 in
        AreNormalized spec.scenes valid.scenes
        × (validate_render_spec fl sum default valid).0 ≡ valid
  unfolding validate_render_spec
  validate_render_spec-AreNormalized sum spec positive =
      let h = validate_scenes-AreNormalized spec.scenes positive in
      let e = validate_scenes-same spec.scenes (validate_scenes fl default spec.scenes).0 h in
      (h, rw (validate_render_spec, e) refl)
