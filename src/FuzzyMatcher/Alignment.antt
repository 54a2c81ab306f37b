-- ===== src/FuzzyMatcher/Alignment.antt =====
-- src/support/fuzzy_matcher.cpp: what the table is about. An alignment says of each character of a part of
-- the word whether it is skipped or matched, the last one first; its score is the sum of the points of
-- its steps.
use clice.Base.{
  ℕ, suc, ◌+◌, ◌-◌, ◌*◌, ◌≤◌, ◌<◌, ◌≡◌, refl, true, ◌&&◌, Option, none, some, List, [], ◌∷◌, length,
  if◌then◌else◌, ltb, ◌==◌, nat_equality, arith,
}
use clice.FuzzyMatcher.{Text, size}
use clice.FuzzyMatcher.Score.{
  Action, miss, matched, int_zero, allow_match, skip_penalty, match_bonus,
}
use clice.FuzzyMatcher.Bonus.{match_bonus_lower, match_bonus_upper, skip_penalty_upper}

abbrev pub Actions : Type 0
Actions = List Action

abbrev pub last_of : Actions → Action
last_of [] = miss
last_of (a ∷ acts) = a

module _ (pattern word : Text) where
  -- Skipping is free behind the end of the pattern.
  unfoldable pub penalty : ℕ → ℕ → ℕ
  penalty p w = if p == size pattern then 0 else skip_penalty word w

  -- One more action: from the number of matched characters and the score to those behind it.
  unfoldable pub act : ℕ → Action → Action → ℕ × ℕ → Option (ℕ × ℕ)
  unfolding penalty
  act w last miss (p, s) = some (p, s - penalty p w)
  act w last matched (p, s) =
      if ltb p (size pattern) && allow_match pattern word p w last
      then some (suc p, s + match_bonus pattern word p w last - int_zero)
      else none

  unfoldable pub then_act : ℕ → Action → Action → Option (ℕ × ℕ) → Option (ℕ × ℕ)
  unfolding act
  then_act w last a none = none
  then_act w last a (some state) = act w last a state

  unfoldable pub evaluate : Actions → Option (ℕ × ℕ)
  unfolding then_act
  evaluate [] = some (0, int_zero)
  evaluate (a ∷ acts) = then_act (length acts) (last_of acts) a (evaluate acts)

  pub record Skips (o : Option (ℕ × ℕ)) (w p s : ℕ) : Type 0 where
    pub before : ℕ
    pub value : o ≡ some (p, before)
    pub score : s ≡ before - penalty p w

  pub record Takes (o : Option (ℕ × ℕ)) (w : ℕ) (last : Action) (p s : ℕ) : Type 0 where
    pub matched_before : ℕ
    pub before : ℕ
    pub value : o ≡ some (matched_before, before)
    pub within : matched_before < size pattern
    pub allowed : allow_match pattern word matched_before w last ≡ true
    pub count : p ≡ suc matched_before
    pub score : s ≡ before + match_bonus pattern word matched_before w last - int_zero

  pub then_act-Skips :
      (o : Option (ℕ × ℕ)) (w : ℕ) (last : Action) (p s : ℕ)
      → then_act w last miss o ≡ some (p, s)
      → Skips o w p s
  unfolding then_act act
  then_act-Skips none w last p s h = ground arith
  then_act-Skips (some (q, t)) w last p s h = record {
    before = t;
    value = ground arith;
    score = ground arith;
  }

  pub then_act-Takes :
      (o : Option (ℕ × ℕ)) (w : ℕ) (last : Action) (p s : ℕ)
      → then_act w last matched o ≡ some (p, s)
      → Takes o w last p s
  unfolding then_act act
  then_act-Takes none w last p s h = ground arith
  then_act-Takes (some (q, t)) w last p s h = record {
    matched_before = q;
    before = t;
    value = refl;
    within = ground arith;
    allowed = ground arith;
    count = ground arith;
    score = ground arith;
  }

  -- The matched characters are of the pattern and of the word, and each step has few points.
  pub record Bounds (n p s : ℕ) : Type 0 where
    pub in_word : p ≤ n
    pub in_pattern : p ≤ size pattern
    pub upper : s ≤ int_zero + 4 * p
    pub lower_bound : int_zero ≤ s + 4 * p + 3 * n

  pub penalty_upper : (p w : ℕ) → penalty p w ≤ 3
  unfolding penalty
  penalty_upper p w = ground (arith, skip_penalty_upper word w)

  pub evaluate-Bounds :
      (acts : Actions) (p s : ℕ) → evaluate acts ≡ some (p, s) → Bounds (length acts) p s
  unfolding evaluate
  evaluate-Bounds [] p s h = record {
    in_word = ground arith;
    in_pattern = ground arith;
    upper = ground arith;
    lower_bound = ground arith;
  }
  evaluate-Bounds (miss ∷ acts) p s h =
      let w = length acts in
      let way = then_act-Skips (evaluate acts) w (last_of acts) p s h in
      let before = evaluate-Bounds acts p way.before way.value in
      record {
        in_word = omega (arith, before.in_word);
        in_pattern = before.in_pattern;
        upper = omega (arith, before.upper, way.score);
        lower_bound = omega (arith, before.lower_bound, way.score, penalty_upper p w);
      }
  evaluate-Bounds (matched ∷ acts) p s h =
      let w = length acts in
      let way = then_act-Takes (evaluate acts) w (last_of acts) p s h in
      let q = way.matched_before in
      let before = evaluate-Bounds acts q way.before way.value in
      record {
        in_word = omega (arith, before.in_word, way.count);
        in_pattern = omega (arith, way.within, way.count);
        upper = omega (
          arith,
          before.upper,
          way.score,
          way.count,
          match_bonus_upper pattern word q w (last_of acts),
        );
        lower_bound = omega (
          arith,
          before.lower_bound,
          way.score,
          way.count,
          match_bonus_lower pattern word q w (last_of acts),
        );
      }
