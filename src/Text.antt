-- ===== src/Text.antt =====
-- Text that the program looks into, as the list of its code points, and the parts of Python's `str`
-- that it uses: `lower` (on ASCII letters; Hangul has no case), `upper` (on the letters whose capitals are
-- ASCII, which are a few more than the small ASCII letters), `strip`, `in`, and the end of a text.
pub mod Laws
use Prim.Native.Char.{code}
use Prim.Native.String
use ctrlf_ai.Prelude.{
  ℕ, ◌+◌, ◌-◌, String, Bool, true, false, ◌&&◌, ◌||◌, List, [], ◌∷◌, ◌++◌, map, leb, ◌==◌, any,
  if◌then◌else◌,
}
use mathlib.Core.List.{reverse}

abbrev pub Text : Type 0
Text = List ℕ

abbrev pub codes : String → Text
codes String.[] = []
codes (String.◌∷◌ c s) = code c ∷ codes s

lower_code : ℕ → ℕ
lower_code c = if leb b'A' c && leb c b'Z' then c + 32 else c

unfoldable pub lower : Text → Text
unfolding lower_code
lower = map lower_code

-- The dotless i (305), the long s (383) and the sharp s (223) have ASCII capitals too.
upper_code : ℕ → Text
upper_code c =
    if leb b'a' c && leb c b'z'
    then (c - 32) ∷ []
    else if c == 305
    then 73 ∷ []
    else if c == 383
    then 83 ∷ []
    else if c == 223
    then 83 ∷ 83 ∷ []
    else c ∷ []

unfoldable pub upper : Text → Text
unfolding upper_code
upper [] = []
upper (c ∷ s) = upper_code c ++ upper s

-- The characters that `str.strip` removes.
unfoldable pub is_space : ℕ → Bool
is_space c =
    (leb 9 c && leb c 13)
    || (leb 28 c && leb c 32)
    || c == 133
    || c == 160
    || c == 5760
    || (leb 8192 c && leb c 8202)
    || c == 8232
    || c == 8233
    || c == 8239
    || c == 8287
    || c == 12288

unfoldable pub strip_left : Text → Text
unfolding is_space
strip_left [] = []
strip_left (c ∷ s) = let rest = strip_left s in if is_space c then rest else c ∷ s

unfoldable pub strip : Text → Text
unfolding strip_left
strip s = reverse (strip_left (reverse (strip_left s)))

unfoldable pub has_prefix : Text → Text → Bool
has_prefix [] s = true
has_prefix (c ∷ p) [] = false
has_prefix (c ∷ p) (d ∷ s) = c == d && has_prefix p s

-- `word in s`
unfoldable pub contains : Text → Text → Bool
unfolding has_prefix
contains word [] = has_prefix word []
contains word (c ∷ s) = has_prefix word (c ∷ s) || contains word s

unfoldable pub has_suffix : Text → Text → Bool
unfolding has_prefix
has_suffix p s = has_prefix (reverse p) (reverse s)

unfoldable pub equals : Text → Text → Bool
equals [] [] = true
equals [] (d ∷ s) = false
equals (c ∷ p) [] = false
equals (c ∷ p) (d ∷ s) = c == d && equals p s

-- `any(keyword in text for keyword in keywords)`
unfoldable pub contains_any : Text → List String → Bool
unfolding contains
contains_any s [] = false
contains_any s (w ∷ ws) = contains (codes w) s || contains_any s ws

-- `[kw for kw in keywords if kw in text]`
unfoldable pub matching : Text → List String → List String
unfolding contains
matching s [] = []
matching s (w ∷ ws) = let rest = matching s ws in if contains (codes w) s then w ∷ rest else rest
