-- ===== src/Splitter.antt =====
-- app/utils/text_splitter.py: a text is split into sentences for speech. The regular expressions are
-- written out as the scans that they stand for; `\s` is the whitespace of `Text`.
pub mod Lengths
pub mod Videos
use ctrlf_ai.Prelude.{
  ℕ, ◌+◌, Bool, true, false, ◌&&◌, ◌||◌, List, [], ◌∷◌, ◌++◌, length, leb, ltb, ◌==◌, if◌then◌else◌,
}
use ctrlf_ai.Text.{Text, is_space, strip}

abbrev pub is_empty : Text → Bool
is_empty [] = true
is_empty (c ∷ s) = false

-- A character before the first piece.
abbrev pub cons_head : ℕ → List Text → List Text
cons_head c [] = (c ∷ []) ∷ []
cons_head c (s ∷ rest) = (c ∷ s) ∷ rest

-- `SPACE_SPLIT_PATTERN.split`; the flag says that the scan is inside a run of whitespace.
unfoldable pub split_spaces : Bool → Text → List Text
unfolding is_space
split_spaces inside [] = [] ∷ []
split_spaces inside (c ∷ s) =
    let rest = split_spaces (is_space c) s in
    if is_space c then (if inside then rest else [] ∷ rest) else cons_head c rest

-- The class `[,;:，；：]`
unfoldable pub is_mark : ℕ → Bool
is_mark c = c == 44 || c == 59 || c == 58 || c == 65292 || c == 65307 || c == 65306

-- `LONG_SENTENCE_SPLIT_PATTERN.split`: after each mark, without the whitespace that follows it. The
-- flag says that the scan is in such whitespace.
unfoldable pub split_marks : Bool → Text → List Text
unfolding is_space is_mark
split_marks dropping [] = [] ∷ []
split_marks dropping (c ∷ s) =
    let rest = split_marks (if is_mark c then true else dropping && is_space c) s in
    if dropping && is_space c then rest else if is_mark c then (c ∷ []) ∷ rest else cons_head c rest

-- The class `[.?!…。]`
unfoldable pub is_end : ℕ → Bool
is_end c = c == 46 || c == 63 || c == 33 || c == 8230 || c == 12290

-- The text cut after each match of `[.?!…。]\s+`. The flags: the character before was an end, and the
-- scan is inside the whitespace of a match.
unfoldable pub split_ends : Bool → Bool → Text → List Text
unfolding is_space is_end
split_ends ended inside [] = [] ∷ []
split_ends ended inside (c ∷ s) =
    let rest = split_ends (is_end c) ((ended || inside) && is_space c) s in
    if inside
    then (if is_space c then cons_head c rest else [] ∷ cons_head c rest)
    else cons_head c rest

-- `strip` on each piece, without the empty ones
unfoldable pub stripped : List Text → List Text
unfolding strip
stripped [] = []
stripped (s ∷ rest) =
    let others = stripped rest in if is_empty (strip s) then others else strip s ∷ others

abbrev pub or_whole : Text → List Text → List Text
or_whole s [] = s ∷ []
or_whole s (x ∷ xs) = x ∷ xs

-- Whether the pattern matches anywhere.
unfoldable pub has_ending : Bool → Text → Bool
unfolding is_space is_end
has_ending ended [] = false
has_ending ended (c ∷ s) = (ended && is_space c) || has_ending (is_end c) s

unfoldable pub split_by_sentence_end : Text → List Text
unfolding split_ends has_ending stripped
split_by_sentence_end s =
    if is_empty s
    then []
    else if has_ending false s
    then or_whole s (stripped (split_ends false false s))
    else s ∷ []

-- The piece that is being filled, before the others unless it is empty.
abbrev pub emit : Text → List Text → List Text
emit current rest = if is_empty current then rest else current ∷ rest

-- The two loops that fill pieces: a part is appended after the glue while the piece stays within the
-- limit, and starts the next piece otherwise.
unfoldable pub fill : ℕ → Text → Text → List Text → List Text
fill limit glue current [] = emit current []
fill limit glue current (part ∷ parts) =
    let fits = leb (length current + length part + length glue) limit in
    let next =
      if fits then (if is_empty current then part else current ++ glue ++ part) else part in
    let rest = fill limit glue next parts in if fits then rest else emit current rest

-- The pieces that are still too long, split at whitespace.
unfoldable pub shorten : ℕ → List Text → List Text
unfolding fill split_spaces
shorten limit [] = []
shorten limit (part ∷ parts) =
    let rest = shorten limit parts in
    if ltb limit (length part)
    then fill limit (32 ∷ []) [] (split_spaces false part) ++ rest
    else part ∷ rest

unfoldable pub pieces : ℕ → Text → List Text
unfolding shorten stripped split_marks
pieces limit s = shorten limit (fill limit (44 ∷ 32 ∷ []) [] (stripped (split_marks false s)))

unfoldable pub split_long_sentence : ℕ → Text → List Text
unfolding pieces
split_long_sentence limit s = if leb (length s) limit then s ∷ [] else or_whole s (pieces limit s)

-- `text.split('\n')`
unfoldable pub split_lines : Text → List Text
split_lines [] = [] ∷ []
split_lines (c ∷ s) = let rest = split_lines s in if c == 10 then [] ∷ rest else cons_head c rest

-- The sentences of the lines, and the long ones split further.
unfoldable pub sentences_of : List Text → List Text
unfolding split_by_sentence_end
sentences_of [] = []
sentences_of (line ∷ lines) = split_by_sentence_end line ++ sentences_of lines

unfoldable pub split_all : ℕ → List Text → List Text
unfolding split_long_sentence
split_all limit [] = []
split_all limit (s ∷ rest) = split_long_sentence limit s ++ split_all limit rest

unfoldable pub split_sentences : ℕ → Text → List Text
unfolding split_lines stripped sentences_of split_all
split_sentences limit text =
    if is_empty (strip text)
    then []
    else split_all limit (stripped (sentences_of (stripped (split_lines text))))
