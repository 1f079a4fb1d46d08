-- ===== src/Tests/SplitterRuns.antt =====
-- Texts split into sentences of at most ten characters.
use ctrlf_ai.Prelude.{ℕ, ◌*◌, List, true, [], ◌∷◌, ◌≡◌, refl, All}
use ctrlf_ai.Floats.FixedPoint.{fixed_point}
use ctrlf_ai.Text.{Text, codes, strip, strip_left, is_space}
use ctrlf_ai.Splitter.{
  split_sentences, split_lines, stripped, sentences_of, split_by_sentence_end, has_ending,
  split_ends, is_end, split_all, split_long_sentence, pieces, shorten, fill, split_marks, is_mark,
  split_spaces,
}
use ctrlf_ai.Splitter.Videos.{
  split_video_inputs_by_duration, split_from, concat, IsGroup,
  split_video_inputs_by_duration-IsGroup,
}
use ctrlf_ai.Splitter.Lengths.{is_fine, pieces-IsFine}

two_sentences :
    split_sentences 10 (codes "Hi there. Go!\nBye")
    ≡ codes "Hi there." ∷ codes "Go!" ∷ codes "Bye" ∷ []
unfolding split_sentences split_lines stripped strip strip_left is_space sentences_of
    split_by_sentence_end has_ending split_ends is_end split_all split_long_sentence
two_sentences = refl

abbrev long_sentence : Text
long_sentence = codes "ab, cd, efg hij klm"

-- The parts keep their commas, and the glue adds another one.
commas_doubled : pieces 10 long_sentence ≡ codes "ab,, cd," ∷ codes "efg hij" ∷ codes "klm" ∷ []
unfolding pieces shorten fill split_marks is_mark stripped strip strip_left is_space split_spaces
commas_doubled = refl

pieces-IsFine_example : All (λ piece. is_fine 10 piece ≡ true) (pieces 10 long_sentence)
pieces-IsFine_example = pieces-IsFine 10 long_sentence

-- Inputs of 100, 90, 200, 50 and 60 seconds: only the last two fit into one group.
abbrev inputs : List ℕ
inputs = 100 ∷ 90 ∷ 200 ∷ 50 ∷ 60 ∷ []

abbrev lasting : ℕ → ℕ × ℕ
lasting n = (1000 * n, 0)

in_groups :
    split_video_inputs_by_duration fixed_point lasting inputs
    ≡ (100 ∷ []) ∷ (90 ∷ []) ∷ (200 ∷ []) ∷ (50 ∷ 60 ∷ []) ∷ []
unfolding split_video_inputs_by_duration split_from
in_groups = refl

split_video_inputs_by_duration-IsGroup_example :
    (concat fixed_point lasting (split_video_inputs_by_duration fixed_point lasting inputs)
      ≡ inputs)
    × All (IsGroup fixed_point lasting) (split_video_inputs_by_duration fixed_point lasting inputs)
split_video_inputs_by_duration-IsGroup_example =
    split_video_inputs_by_duration-IsGroup fixed_point lasting inputs
