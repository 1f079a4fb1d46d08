-- ===== src/Render/Watchers/Links.antt =====
-- Sets of texts and dicts of them, as app/api/v1/ws_render_progress.py uses them: what is in them
-- after an addition or a removal.
use ctrlf_ai.Prelude.{
  String, ◌≡◌, refl, ap, ◌∙◌, Bool, not, ◌&&◌, ◌||◌, List, [], ◌∷◌, ◌++◌, arith, Bool-cases, inl,
  inr, if◌then◌else◌, ◌=ˢ◌, eq_iff,
}
use ctrlf_ai.Prelude.Dict.{Dict, insert, remove, lookup-insert, lookup-remove}
use ctrlf_ai.Render.Watchers.{mem, add, discard, members, leave, put}

mem-append : (x y : String) (s : List String) → mem x (s ++ (y ∷ [])) ≡ (mem x s || y =ˢ x)
unfolding mem
mem-append x y [] = ground arith
mem-append x y (z ∷ s) = ground (arith, mem-append x y s)

mem-add : (x y : String) (s : List String) → mem x (add y s) ≡ (y =ˢ x || mem x s)
unfolding add
mem-add x y s = ground (arith, mem-append x y s, eq_iff y x)

mem-discard : (x y : String) (s : List String) → mem x (discard y s) ≡ (not (y =ˢ x) && mem x s)
unfolding mem discard
mem-discard x y [] = ground arith
mem-discard x y (z ∷ s) = ground (arith, mem-discard x y s, eq_iff z x, eq_iff z y, eq_iff y x)

members-insert :
    (k j : String) (s : List String) (d : Dict (List String))
    → members k (insert j s d) ≡ (if j =ˢ k then s else members k d)
unfolding members
members-insert k j s d = elim (Bool-cases (j =ˢ k)) [
  | inl e ↦ rw (members, lookup-insert, e) refl
  | inr e ↦ rw (members, lookup-insert, e) refl
]

pub members-remove :
    (k j : String) (d : Dict (List String))
    → members k (remove j d) ≡ (if j =ˢ k then [] else members k d)
unfolding members
members-remove k j d = elim (Bool-cases (j =ˢ k)) [
  | inl e ↦ rw (members, lookup-remove, e) refl
  | inr e ↦ rw (members, lookup-remove, e) refl
]

members-put :
    (k j : String) (s : List String) (d : Dict (List String))
    → members k (put j s d) ≡ (if j =ˢ k then s else members k d)
unfolding put
members-put k j [] d = members-remove k j d
members-put k j (x ∷ s) d = members-insert k j (x ∷ s) d

-- A link from a key to an element, added or taken away.
pub mem_if :
    (x k v : String) (s : List String) (d : Dict (List String)) (b : Bool)
    → (v ≡ k → mem x s ≡ b)
    → mem x (if v =ˢ k then s else members k d) ≡ (if v =ˢ k then b else mem x (members k d))
mem_if x k v s d b h = elim (Bool-cases (v =ˢ k)) [
  | inl e ↦ rw e (h ((eq_iff v k).0 e))
  | inr e ↦ rw e refl
]

pub linked-add :
    (x k ws v : String) (d : Dict (List String))
    → mem x (members k (insert v (add ws (members v d)) d))
      ≡ (v =ˢ k && ws =ˢ x || mem x (members k d))
linked-add x k ws v d =
    ap (mem x) (members-insert k v (add ws (members v d)) d)
    ∙ mem_if x k v (add ws (members v d)) d (ws =ˢ x || mem x (members k d))
        (λ e. mem-add x ws (members v d) ∙ ap (λ j. ws =ˢ x || mem x (members j d)) e)
    ∙ ground arith

linked_less :
    (x k ws v : String) (d : Dict (List String))
    → mem x (if v =ˢ k then discard ws (members v d) else members k d)
      ≡ (not (v =ˢ k && ws =ˢ x) && mem x (members k d))
linked_less x k ws v d =
    mem_if x k v (discard ws (members v d)) d (not (ws =ˢ x) && mem x (members k d))
      (λ e. mem-discard x ws (members v d) ∙ ap (λ j. not (ws =ˢ x) && mem x (members j d)) e)
    ∙ ground arith

pub linked-discard :
    (x k ws v : String) (d : Dict (List String))
    → mem x (members k (insert v (discard ws (members v d)) d))
      ≡ (not (v =ˢ k && ws =ˢ x) && mem x (members k d))
linked-discard x k ws v d =
    ap (mem x) (members-insert k v (discard ws (members v d)) d) ∙ linked_less x k ws v d

pub linked-leave :
    (x k ws v : String) (d : Dict (List String))
    → mem x (members k (leave ws v d)) ≡ (not (v =ˢ k && ws =ˢ x) && mem x (members k d))
unfolding leave
linked-leave x k ws v d =
    ap (mem x) (members-put k v (discard ws (members v d)) d) ∙ linked_less x k ws v d
