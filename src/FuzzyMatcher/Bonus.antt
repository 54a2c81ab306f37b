-- ===== src/FuzzyMatcher/Bonus.antt =====
-- src/support/fuzzy_matcher.cpp: the bounds of the points of a step, that of the second assertion of
-- `match_bonus` among them.
use clice.Base.{ℕ, ◌+◌, ◌≤◌, ◌<◌, ◌≡◌, arith}
use clice.FuzzyMatcher.{Text}
use clice.FuzzyMatcher.Score.{Action, match_bonus, skip_penalty, field, int_zero, perfect_bonus}

pub match_bonus_upper :
    (pattern word : Text) (p w : ℕ) (last : Action)
    → match_bonus pattern word p w last ≤ int_zero + perfect_bonus
unfolding match_bonus
match_bonus_upper pattern word p w last = ground arith

pub match_bonus_lower :
    (pattern word : Text) (p w : ℕ) (last : Action)
    → int_zero ≤ match_bonus pattern word p w last + 4
unfolding match_bonus
match_bonus_lower pattern word p w last = ground arith

pub skip_penalty_upper : (word : Text) (w : ℕ) → skip_penalty word w ≤ 3
unfolding skip_penalty
skip_penalty_upper word w = ground arith

-- A value of fewer than 15 bits is read back as it was written.
pub field_id : (v : ℕ) → 49152 ≤ v → v < 81920 → field v ≡ v
unfolding field
field_id v l u = omega arith
