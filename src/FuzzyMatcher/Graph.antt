-- ===== src/FuzzyMatcher/Graph.antt =====
-- src/support/fuzzy_matcher.cpp: the table of scores, and `match`. Each cell is a function of those
-- that the loops fill before it; a cell behind the diagonal keeps what the constructor put there.
use clice.Base.{
  ℕ, zero, suc, ◌+◌, ◌-◌, ◌*◌, Bool, Option, none, some, if◌then◌else◌, ltb, ◌==◌, nat_equality,
  min, max,
}
use clice.FuzzyMatcher.{CharType, Bytes, Text, size, segment, truncate, init, max_pat, max_word}
use clice.FuzzyMatcher.Score.{
  Action, miss, matched, int_zero, awful, perfect_bonus, is_awful, field, allow_match, skip_penalty,
  match_bonus,
}

pub record ScoreInfo : Type 0 where
  pub score : ℕ
  pub prev : Action

-- `scores[P][W]`, by the last action.
pub record Cell : Type 0 where
  pub on_miss : ScoreInfo
  pub on_match : ScoreInfo

abbrev pub at_action : Cell → Action → ScoreInfo
at_action c miss = c.on_miss
at_action c matched = c.on_match

abbrev pub awful_info : ScoreInfo
awful_info = record { score = awful; prev = miss }

-- The better of two ways, the match only if it is strictly better.
unfoldable pub better : ℕ → ℕ → ScoreInfo
better on_match on_miss =
    if ltb on_miss on_match
    then record { score = field on_match; prev = matched }
    else record { score = field on_miss; prev = miss }

module _ (pattern word : Text) where
  -- The cell of the first row behind the one at `w`.
  unfoldable pub skip_first : ℕ → Cell → Cell
  skip_first w before = record {
    on_miss = record { score = field (before.on_miss.score - skip_penalty word w); prev = miss };
    on_match = awful_info;
  }

  unfoldable pub skipped : ℕ → ℕ → ℕ → ℕ
  skipped p w s = if ltb (p + 1) (size pattern) then s - skip_penalty word w else s

  unfoldable pub taken : ℕ → ℕ → Action → ℕ → ℕ
  taken p w last s =
      if allow_match pattern word p w last
      then s + match_bonus pattern word p w last - int_zero
      else awful

  -- The body of the inner loop: `left` is `scores[P + 1][W]` and `diagonal` is `scores[P][W]`.
  unfoldable pub fill : ℕ → ℕ → Cell → Cell → Cell
  fill p w left diagonal = record {
    on_miss = better (skipped p w left.on_match.score) (skipped p w left.on_miss.score);
    on_match =
        better (taken p w matched diagonal.on_match.score) (taken p w miss diagonal.on_miss.score);
  }

  unfoldable pub scores : ℕ → ℕ → Cell
  unfolding skip_first fill
  scores zero zero = record {
    on_miss = record { score = int_zero; prev = miss };
    on_match = awful_info;
  }
  scores zero (suc w) = skip_first w (scores zero w)
  scores (suc p) zero = record { on_miss = awful_info; on_match = awful_info }
  scores (suc p) (suc w) =
      let left = scores (suc p) w in
      let diagonal = scores p w in
      if ltb w p
      then record { on_miss = awful_info; on_match = awful_info }
      else fill p w left diagonal

  unfoldable pub best : ℕ
  best = let last = scores (size pattern) (size word) in max last.on_miss.score last.on_match.score

-- A score as a fraction, where the source has the float next to it.
pub record Score : Type 0 where
  pub numerator : ℕ
  pub denominator : ℕ

abbrev pub scaled : ℕ → ℕ → Bool → Score
scaled n best whole =
    let points = min (perfect_bonus * n) (max int_zero best - int_zero) in
    record { numerator = if whole then 2 * points else points; denominator = perfect_bonus * n }

-- The constructor's part on the pattern.
unfoldable pub pattern_text : (ℕ → CharType) → Bytes → Text
pattern_text outside s = segment outside (truncate max_pat s)

-- `match`.
unfoldable pub match : (ℕ → CharType) → Text → Bytes → Option Score
match outside pattern s =
    let word = segment outside (truncate max_word s) in
    if init pattern s
    then (if size pattern == 0
        then some (record { numerator = 1; denominator = 1 })
        else if is_awful (best pattern word)
        then none
        else some (scaled (size pattern) (best pattern word) (size word == size pattern)))
    else none
