-- ===== src/FuzzyMatcher/Samples.antt =====
-- The theorems on the fuzzy matcher (src/support/fuzzy_matcher.cpp) at the pattern "up" and a word.
use mathlib.Core.List.{Sublistᴰ}
use clice.Base.{ℕ, ◌≡◌, refl, true, ◌↔◌, [], ◌∷◌, some, arith, map, ◌==◌, nat_equality}
use clice.FuzzyMatcher.{
  CharType, lower_case, head, tail, separator, Bytes, calculate_roles, lower, init, segment,
  truncate, max_word, size, char_type, type_set,
}
use clice.FuzzyMatcher.Score.{is_awful, field, allow_match, skip_penalty, match_bonus}
use clice.FuzzyMatcher.Graph.{match, pattern_text, scores, best, better, skipped, taken}
use clice.FuzzyMatcher.Roles.{
  segmentation, calculate_roles-segmentation, ascii_type, char_type-ascii_type,
}
use clice.FuzzyMatcher.Subsequence.{init-Sublistᴰ}
use clice.FuzzyMatcher.Match.{Answers, match-Answers, ScoreBounds, match-ScoreBounds}
use clice.FuzzyMatcher.Exact.{wide_scores, scores-wide_scores}

abbrev high : ℕ → CharType
high c = lower_case

-- "up" and "u_Pt".
abbrev up : Bytes
up = 117 ∷ 112 ∷ []

abbrev long_name : Bytes
long_name = 117 ∷ 95 ∷ 80 ∷ 116 ∷ []

roles_of_long_name : calculate_roles high long_name ≡ head ∷ separator ∷ head ∷ tail ∷ []
unfolding calculate_roles
roles_of_long_name = refl

calculate_roles_example :
    calculate_roles high long_name ≡ segmentation (map (char_type high) long_name)
calculate_roles_example = calculate_roles-segmentation high long_name

char_type_example : char_type high 95 ≡ ascii_type 95
char_type_example = char_type-ascii_type high 95 (omega arith)

init_example :
    (init (segment high up) long_name ≡ true)
    ↔ Sublistᴰ (map lower up) (map lower (truncate max_word long_name))
init_example = init-Sublistᴰ high up long_name

scores_example :
    scores (segment high up) (segment high long_name) 2 3
    ≡ wide_scores (segment high up) (segment high long_name) 2 3
unfolding segment
scores_example =
    scores-wide_scores (segment high up) (segment high long_name) 2 3 (omega arith) (omega arith)
      (omega arith) (omega arith)

match_example :
    Answers
      (pattern_text high up)
      (segment high (truncate max_word long_name))
      (match high (pattern_text high up) long_name)
unfolding pattern_text segment truncate init lower
match_example = match-Answers high up long_name (omega arith) refl

bounds_example :
    ScoreBounds
      (size (segment high (truncate max_word long_name)) == size (pattern_text high up))
      (match high (pattern_text high up) long_name)
bounds_example = match-ScoreBounds high (pattern_text high up) long_name

match_of_long_name :
    match high (pattern_text high up) long_name ≡ some (record { numerator = 6; denominator = 8 })
unfolding match pattern_text segment truncate init lower is_awful best scores better skipped field
    taken allow_match calculate_roles skip_penalty match_bonus type_set
match_of_long_name = refl
