-- ===== src/Splitter/Lengths.antt =====
-- app/utils/text_splitter.py: the length of the pieces.
use Prim.{tt}
use ctrlf_ai.Prelude.{
  ℕ, ◌+◌, Bool, true, false, not, ◌||◌, List, [], ◌∷◌, ◌++◌, ◌≡◌, refl, subst, arith, length,
  length-append, leb, ltb, any, All, All-append, if◌then◌else◌, Bool-cases, inl, inr,
}
use ctrlf_ai.Text.{Text, is_space}
use ctrlf_ai.Splitter.{is_empty, cons_head, split_spaces, emit, fill, shorten, pieces}

-- Short enough, or a single word.
unfoldable pub is_fine : ℕ → Text → Bool
is_fine limit s = leb (length s) limit || not (any is_space s)

abbrev IsFine : ℕ → Text → Type 0
IsFine limit s = is_fine limit s ≡ true

abbrev IsWord : Text → Type 0
IsWord s = any is_space s ≡ false

cons_head-IsWord :
    (c : ℕ) (l : List Text) → is_space c ≡ false → All IsWord l → All IsWord (cons_head c l)
cons_head-IsWord c [] e h = (ground arith, tt)
cons_head-IsWord c (s ∷ rest) e (h, hs) = (ground arith, hs)

if-All :
    (P : Text → Type 0) (b : Bool) (xs ys : List Text)
    → All P xs
    → All P ys
    → All P (if b then xs else ys)
if-All P true xs ys hx hy = hx
if-All P false xs ys hx hy = hy

empty-IsFine : (limit : ℕ) → IsFine limit []
unfolding is_fine
empty-IsFine limit = ground arith

short-IsFine : (limit : ℕ) (s : Text) → ltb limit (length s) ≡ false → IsFine limit s
unfolding is_fine
short-IsFine limit s h = ground arith

split_spaces-IsWord : (inside : Bool) (s : Text) → All IsWord (split_spaces inside s)
unfolding split_spaces
split_spaces-IsWord inside [] = (refl, tt)
split_spaces-IsWord inside (c ∷ s) =
    let rest = split_spaces (is_space c) s in
    let words = split_spaces-IsWord (is_space c) s in
    elim (Bool-cases (is_space c)) [
      | inl gap ↦ rw gap (
          if-All IsWord inside (split_spaces true s) ([] ∷ split_spaces true s)
            (subst (λ b. All IsWord (split_spaces b s)) gap words)
            (refl, subst (λ b. All IsWord (split_spaces b s)) gap words))
      | inr char ↦ rw char (
          cons_head-IsWord c (split_spaces false s) char
            (subst (λ b. All IsWord (split_spaces b s)) char words))
    ]

emit-IsFine :
    (limit : ℕ) (current : Text) (rest : List Text)
    → IsFine limit current
    → All (IsFine limit) rest
    → All (IsFine limit) (emit current rest)
emit-IsFine limit current rest h hs = if-All (IsFine limit) (is_empty current) rest _ hs (h, hs)

next-IsFine :
    (limit : ℕ) (current w : Text)
    → IsWord w
    → IsFine limit (
        if leb (length current + length w + 1) limit
        then (if is_empty current then w else current ++ (32 ∷ []) ++ w)
        else w)
unfolding is_fine
next-IsFine limit current w h =
    ground (arith, length-append current (32 ∷ []), length-append (current ++ (32 ∷ [])) w)

fill-IsFine :
    (limit : ℕ) (current : Text) (words : List Text)
    → IsFine limit current
    → All IsWord words
    → All (IsFine limit) (fill limit (32 ∷ []) current words)
unfolding fill
fill-IsFine limit current [] h hs = emit-IsFine limit current [] h tt
fill-IsFine limit current (w ∷ ws) h (hw, hs) =
    let fits = leb (length current + length w + 1) limit in
    let next = if fits then (if is_empty current then w else current ++ (32 ∷ []) ++ w) else w in
    let rest = fill limit (32 ∷ []) next ws in
    let fine = fill-IsFine limit next ws (next-IsFine limit current w hw) hs in
    if-All (IsFine limit) fits rest (emit current rest) fine (emit-IsFine limit current rest h fine)

shorten-IsFine : (limit : ℕ) (parts : List Text) → All (IsFine limit) (shorten limit parts)
unfolding shorten
shorten-IsFine limit [] = tt
shorten-IsFine limit (part ∷ parts) =
    let rest = shorten-IsFine limit parts in
    elim (Bool-cases (ltb limit (length part))) [
      | inl long ↦ rw long (
          All-append (IsFine limit) (fill limit (32 ∷ []) [] (split_spaces false part))
            (shorten limit parts)
            (fill-IsFine limit [] (split_spaces false part) (empty-IsFine limit)
              (split_spaces-IsWord false part))
            rest)
      | inr short ↦ rw short (short-IsFine limit part short, rest)
    ]

-- Each of the pieces into which a long sentence is split is within the limit, unless it is a single
-- word, without whitespace, that is longer.
pub pieces-IsFine :
    (limit : ℕ) (s : Text) → All (λ piece. is_fine limit piece ≡ true) (pieces limit s)
unfolding pieces
pieces-IsFine limit s = shorten-IsFine limit _
