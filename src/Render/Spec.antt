-- ===== src/Render/Spec.antt =====
-- app/models/render_spec.py: the render-spec that a job takes a snapshot of, its validation and its
-- translation to chapters. `sum` is Python's `sum` of floats.
pub mod Chapters
pub mod Valid
use ctrlf_ai.Prelude.{
  ℕ, suc, String, Bool, true, not, Option, some, none, List, [], ◌∷◌, ◌++◌, map, if◌then◌else◌,
  ◌=ˢ◌,
}
use ctrlf_ai.Prelude.Dict.{Dict, lookup, insert}
use ctrlf_ai.Floats.{Floats}
use ctrlf_ai.Text.{Text, codes, strip, equals}

pub record VisualSpec : Type 0 where
  pub type : String
  pub text : Option String
  pub highlight_terms : List String

pub record RenderScene (F : Type 0) : Type 0 where
  pub scene_id : String
  pub scene_order : ℕ
  pub chapter_title : String
  pub purpose : String
  pub narration : String
  pub caption : String
  pub duration_sec : F
  pub visual_spec : Option VisualSpec

pub record RenderSpec (F : Type 0) : Type 0 where
  pub script_id : String
  pub video_id : String
  pub title : String
  pub total_duration_sec : F
  pub scenes : List (RenderScene F)

module _ {F : Type 0} where
  unfoldable pub is_empty : RenderSpec F → Bool
  is_empty spec = elim spec.scenes [ [] ↦ true | _ ↦ not true ]

-- A scene as `to_raw_json` writes it, under its chapter.
pub record RawScene (F : Type 0) : Type 0 where
  pub scene_id : String
  pub scene_order : ℕ
  pub purpose : String
  pub narration : String
  pub caption : String
  pub duration_sec : F
  pub visual_spec : Option VisualSpec

pub record RawChapter (F : Type 0) : Type 0 where
  pub chapter_order : ℕ
  pub chapter_title : String
  pub scenes : List (RawScene F)

pub record RawJson (F : Type 0) : Type 0 where
  pub title : String
  pub total_duration_sec : F
  pub chapters : List (RawChapter F)

module _ {F : Type 0} where
  unfoldable pub raw_scene : RenderScene F → RawScene F
  raw_scene scene = record {
    scene_id = scene.scene_id;
    scene_order = scene.scene_order;
    purpose = scene.purpose;
    narration = scene.narration;
    caption = scene.caption;
    duration_sec = scene.duration_sec;
    visual_spec = scene.visual_spec;
  }

  -- `scene.chapter_title or "기본 챕터"`
  unfoldable pub chapter_of : RenderScene F → String
  chapter_of scene = if scene.chapter_title =ˢ "" then "기본 챕터" else scene.chapter_title

  -- What the dict has so far under the chapter, with the empty list where it has nothing.
  unfoldable pub scenes_of : String → Dict (List (RawScene F)) → List (RawScene F)
  scenes_of chapter chapters = elim (lookup chapter chapters) [ none ↦ [] | some scenes ↦ scenes ]

  -- The loop that fills `chapters_dict`
  unfoldable pub group : List (RenderScene F) → Dict (List (RawScene F)) → Dict (List (RawScene F))
  unfolding raw_scene chapter_of scenes_of
  group [] chapters = chapters
  group (scene ∷ scenes) chapters =
      let chapter = chapter_of scene in
      group scenes (insert chapter (scenes_of chapter chapters ++ (raw_scene scene ∷ [])) chapters)

  -- `enumerate(chapters_dict.items(), 1)`
  unfoldable pub numbered : ℕ → Dict (List (RawScene F)) → List (RawChapter F)
  numbered i [] = []
  numbered i ((title, scenes) ∷ rest) =
      record { chapter_order = i; chapter_title = title; scenes = scenes } ∷ numbered (suc i) rest

  unfoldable pub to_raw_json : RenderSpec F → RawJson F
  unfolding group numbered
  to_raw_json spec = record {
    title = spec.title;
    total_duration_sec = spec.total_duration_sec;
    chapters = numbered 1 (group spec.scenes []);
  }

-- The warnings: a duration that was replaced, and a narration that is empty.
pub data Warning (F : Type 0) : Type 0 where
  bad_duration : String → F → F → Warning F
  empty_narration : String → Warning F

module _ (fl : Floats) where
  open fl use {F, lt, of_nat}

  -- `scene.duration_sec <= 0`
  unfoldable pub is_instant : RenderScene F → Bool
  is_instant scene = not (lt (of_nat 0) scene.duration_sec)

  unfoldable pub lacks_narration : RenderScene F → Bool
  lacks_narration scene = equals (strip (codes scene.narration)) []

  unfoldable pub validate_and_normalize_scene : F → RenderScene F → RenderScene F × List (Warning F)
  unfolding is_instant lacks_narration
  validate_and_normalize_scene default_duration scene =
      let missing = if lacks_narration scene then empty_narration scene.scene_id ∷ [] else [] in
      if is_instant scene
      then (
        record scene { duration_sec = default_duration },
        bad_duration scene.scene_id scene.duration_sec default_duration ∷ missing,
      )
      else (scene, missing)

  -- The loop of `validate_render_spec`
  unfoldable pub validate_scenes :
      F → List (RenderScene F) → List (RenderScene F) × List (Warning F)
  unfolding validate_and_normalize_scene
  validate_scenes default_duration [] = ([], [])
  validate_scenes default_duration (scene ∷ scenes) =
      let (normalized, warnings) = validate_and_normalize_scene default_duration scene in
      let (others, more) = validate_scenes default_duration scenes in
      (normalized ∷ others, warnings ++ more)

  unfoldable pub validate_render_spec :
      (List F → F) → F → RenderSpec F → RenderSpec F × List (Warning F)
  unfolding validate_scenes
  validate_render_spec sum default_duration spec =
      let (normalized, warnings) = validate_scenes default_duration spec.scenes in
      (
        record spec {
          total_duration_sec = sum (map (λ s. s.duration_sec) normalized);
          scenes = normalized;
        },
        warnings,
      )
