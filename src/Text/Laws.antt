-- ===== src/Text/Laws.antt =====
-- `contains` decides that a word stands somewhere in a text, and `contains_any` that one of the
-- keywords does.
use ctrlf_ai.Prelude.{ℕ, ◌≡◌, refl, ap, ◌↔◌, true, [], ◌∷◌, ◌++◌, arith, inl, inr, Bool-cases}
use ctrlf_ai.Text.{Text, has_prefix, contains}

-- The word stands in the text.
pub record Occurs (word s : Text) : Type 0 where
  pub before : Text
  pub after : Text
  pub split : s ≡ before ++ (word ++ after)

has_prefix_self : (p s : Text) → has_prefix p (p ++ s) ≡ true
unfolding has_prefix
has_prefix_self [] s = refl
has_prefix_self (c ∷ p) s = ground (arith, has_prefix_self p s)

has_prefix_rest : (p s : Text) → has_prefix p s ≡ true → (rest : Text) × (s ≡ p ++ rest)
unfolding has_prefix
has_prefix_rest [] s h = (s, refl)
has_prefix_rest (c ∷ p) [] h = cc
has_prefix_rest (c ∷ p) (d ∷ s) h =
    let (rest, e) = has_prefix_rest p s (ground arith) in (rest, ground arith)

contains_here : (p s : Text) → has_prefix p s ≡ true → contains p s ≡ true
unfolding contains
contains_here p [] h = h
contains_here p (c ∷ s) h = rw h

contains_later : (p s : Text) (c : ℕ) → contains p s ≡ true → contains p (c ∷ s) ≡ true
unfolding contains
contains_later p s c h = ground arith

contains_complete : (p before after : Text) → contains p (before ++ (p ++ after)) ≡ true
contains_complete p [] after = contains_here p (p ++ after) (has_prefix_self p after)
contains_complete p (c ∷ before) after =
    contains_later p (before ++ (p ++ after)) c (contains_complete p before after)

Occurs-cons : (p s : Text) (c : ℕ) → Occurs p s → Occurs p (c ∷ s)
Occurs-cons p s c o = record { before = c ∷ o.before; after = o.after; split = ap (◌∷◌ c) o.split }

contains_sound : (p s : Text) → contains p s ≡ true → Occurs p s
unfolding contains
contains_sound p [] h =
    let (rest, e) = has_prefix_rest p [] h in record { before = []; after = rest; split = e }
contains_sound p (c ∷ s) h = elim (Bool-cases (has_prefix p (c ∷ s))) [
  | inl here ↦
      let (rest, e) = has_prefix_rest p (c ∷ s) here in
      record { before = []; after = rest; split = e }
  | inr not_here ↦ Occurs-cons p s c (contains_sound p s (ground arith))
]

-- `contains` decides that the word stands somewhere in the text.
pub contains_iff : (word s : Text) → (contains word s ≡ true) ↔ Occurs word s
contains_iff word s =
    (contains_sound word s, λ o. rw o.split (contains_complete word o.before o.after))
