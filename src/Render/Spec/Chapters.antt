-- ===== src/Render/Spec/Chapters.antt =====
-- app/models/render_spec.py: `to_raw_json` puts every scene under its chapter, in order.
use ctrlf_ai.Prelude.{
  ℕ, suc, ◌+◌, length, length-append, String, ◌≡◌, refl, sym, ap, ◌∙◌, false, List, [], ◌∷◌, ◌++◌,
  arith, Bool-cases, inl, inr, if◌then◌else◌, ◌=ˢ◌, eq_iff,
}
use mathlib.Core.List.{append_assoc, append-nil}
use ctrlf_ai.Prelude.Dict.{Dict, lookup, insert, lookup-insert}
use ctrlf_ai.Render.Spec.{
  RenderScene, RawScene, RawChapter, RenderSpec, raw_scene, chapter_of, scenes_of, group, numbered,
  to_raw_json,
}

module _ {F : Type 0} where
  -- The scenes of a chapter, in their order, as `to_raw_json` writes them
  unfoldable pub scenes_in : String → List (RenderScene F) → List (RawScene F)
  scenes_in chapter [] = []
  scenes_in chapter (scene ∷ scenes) =
      let rest = scenes_in chapter scenes in
      if chapter_of scene =ˢ chapter then raw_scene scene ∷ rest else rest

  scenes_of-insert :
      (k chapter : String) (scenes : List (RawScene F)) (d : Dict (List (RawScene F)))
      → scenes_of chapter (insert k scenes d)
        ≡ (if k =ˢ chapter then scenes else scenes_of chapter d)
  unfolding scenes_of
  scenes_of-insert k chapter scenes d = elim (Bool-cases (k =ˢ chapter)) [
    | inl e ↦ rw (scenes_of, lookup-insert, e) refl
    | inr e ↦ rw (scenes_of, lookup-insert, e) refl
  ]

  scenes_of-add :
      (k chapter : String) (scene : RawScene F) (d : Dict (List (RawScene F)))
      → scenes_of chapter (insert k (scenes_of k d ++ (scene ∷ [])) d)
        ≡ scenes_of chapter d ++ (if k =ˢ chapter then scene ∷ [] else [])
  scenes_of-add k chapter scene d =
      scenes_of-insert k chapter _ d ∙ elim (Bool-cases (k =ˢ chapter)) [
        | inl e ↦ rw e (ap (λ x. scenes_of x d ++ (scene ∷ [])) ((eq_iff k chapter).0 e))
        | inr e ↦ rw e (sym (append-nil (scenes_of chapter d)))
      ]

  scenes_in-cons :
      (chapter : String) (scene : RenderScene F) (scenes : List (RenderScene F))
      → (if chapter_of scene =ˢ chapter then raw_scene scene ∷ [] else [])
          ++ scenes_in chapter scenes
        ≡ scenes_in chapter (scene ∷ scenes)
  unfolding scenes_in
  scenes_in-cons chapter scene scenes = elim (Bool-cases (chapter_of scene =ˢ chapter)) [
    | inl e ↦ rw (scenes_in, e) refl
    | inr e ↦ rw (scenes_in, e) refl
  ]

  scenes_of-group :
      (chapter : String) (scenes : List (RenderScene F)) (d : Dict (List (RawScene F)))
      → scenes_of chapter (group scenes d) ≡ scenes_of chapter d ++ scenes_in chapter scenes
  unfolding group
  scenes_of-group chapter [] d = unfold scenes_in in sym (append-nil (scenes_of chapter d))
  scenes_of-group chapter (scene ∷ scenes) d =
      let k = chapter_of scene in
      let d' = insert k (scenes_of k d ++ (raw_scene scene ∷ [])) d in
      scenes_of-group chapter scenes d'
      ∙ ap (λ x. x ++ scenes_in chapter scenes) (scenes_of-add k chapter (raw_scene scene) d)
      ∙ append_assoc (scenes_of chapter d) _ (scenes_in chapter scenes)
      ∙ ap (λ x. scenes_of chapter d ++ x) (scenes_in-cons chapter scene scenes)

  -- The scenes of all chapters together
  abbrev total : Dict (List (RawScene F)) → ℕ
  total [] = 0
  total ((title, scenes) ∷ rest) = length scenes + total rest

  scenes_of_later :
      (k title : String) (scenes : List (RawScene F)) (rest : Dict (List (RawScene F)))
      → title =ˢ k ≡ false
      → scenes_of k ((title, scenes) ∷ rest) ≡ scenes_of k rest
  unfolding scenes_of lookup
  scenes_of_later k title scenes rest e = rw (scenes_of, lookup, e) refl

  total-add :
      (k : String) (scene : RawScene F) (d : Dict (List (RawScene F)))
      → total (insert k (scenes_of k d ++ (scene ∷ [])) d) ≡ suc (total d)
  unfolding insert scenes_of lookup
  total-add k scene [] = refl
  total-add k scene ((title, scenes) ∷ rest) = elim (Bool-cases (title =ˢ k)) [
    | inl e ↦ rw (scenes_of, lookup, insert, e) (omega (arith, length-append scenes (scene ∷ [])))
    | inr e ↦
        ap (λ x. total (insert k (x ++ (scene ∷ [])) ((title, scenes) ∷ rest)))
          (scenes_of_later k title scenes rest e)
        ∙ rw (insert, e) (omega (arith, total-add k scene rest))
  ]

  total-group :
      (scenes : List (RenderScene F)) (d : Dict (List (RawScene F)))
      → total (group scenes d) ≡ total d + length scenes
  unfolding group
  total-group [] d = omega arith
  total-group (scene ∷ scenes) d =
      omega (arith, total-group scenes _, total-add (chapter_of scene) (raw_scene scene) d)

  -- What the document has under a title: the scenes of the first chapter of that title
  unfoldable pub under : String → List (RawChapter F) → List (RawScene F)
  under title [] = []
  under title (chapter ∷ chapters) =
      if chapter.chapter_title =ˢ title then chapter.scenes else under title chapters

  unfoldable pub scene_count : List (RawChapter F) → ℕ
  scene_count [] = 0
  scene_count (chapter ∷ chapters) = length chapter.scenes + scene_count chapters

  under-numbered :
      (title : String) (i : ℕ) (d : Dict (List (RawScene F)))
      → (under title (numbered i d) ≡ scenes_of title d) × (scene_count (numbered i d) ≡ total d)
  unfolding under numbered scenes_of lookup scene_count
  under-numbered title i [] = (refl, refl)
  under-numbered title i ((t, scenes) ∷ rest) = elim (Bool-cases (t =ˢ title)) [
    | inl e ↦ (
      rw (under, scenes_of, lookup, e) refl,
      omega (arith, (under-numbered title (suc i) rest).1),
    )
    | inr e ↦ (
      rw (under, scenes_of, lookup, e) (under-numbered title (suc i) rest).0,
      omega (arith, (under-numbered title (suc i) rest).1),
    )
  ]

  -- `to_raw_json` puts every scene under the title of its chapter, in the order of the spec, and
  -- none anywhere else: under each title it has the scenes of that chapter, and as many scenes in
  -- all as the spec.
  pub to_raw_json-chapters :
      (spec : RenderSpec F) (title : String)
      → (under title (to_raw_json spec).chapters ≡ scenes_in title spec.scenes)
        × (scene_count (to_raw_json spec).chapters ≡ length spec.scenes)
  unfolding to_raw_json under scene_count
  to_raw_json-chapters spec title =
      let d = group spec.scenes [] in
      let (found, counted) = under-numbered title 1 d in
      (
        found ∙ (scenes_of-group title spec.scenes [] ∙ unfold scenes_of lookup in refl),
        counted ∙ (total-group spec.scenes [] ∙ omega arith),
      )
