-- ===== src/FuzzyMatcher/Exact.antt =====
-- src/support/fuzzy_matcher.cpp: the table of `build_graph` as it is where a score has all the bits of an int.
use clice.Base.{
  ℕ, zero, suc, ◌-◌, ◌≤◌, ◌<◌, ◌≡◌, refl, ap, ◌∙◌, if◌then◌else◌, ltb, arith, nat_equality,
  Bool-cases, inl, inr,
}
use clice.FuzzyMatcher.{Text, size}
use clice.FuzzyMatcher.Score.{Action, miss, matched, int_zero, skip_penalty}
use clice.FuzzyMatcher.Bonus.{field_id, skip_penalty_upper, match_bonus_lower, match_bonus_upper}
use clice.FuzzyMatcher.Graph.{
  ScoreInfo, Cell, awful_info, better, skip_first, skipped, taken, fill, scores,
}
use clice.FuzzyMatcher.Table.{Optima, scores-Optima}

unfoldable pub wide_better : ℕ → ℕ → ScoreInfo
wide_better on_match on_miss =
    if ltb on_miss on_match
    then record { score = on_match; prev = matched }
    else record { score = on_miss; prev = miss }

wide_better-better :
    (k m : ℕ) → 49152 ≤ k → k < 81920 → 49152 ≤ m → m < 81920 → better k m ≡ wide_better k m
unfolding better wide_better
wide_better-better k m kl ku ml mu = elim (Bool-cases (ltb m k)) [
  | inl e ↦ rw e (ap (λ v. record { score = v; prev = matched }) (field_id k kl ku))
  | inr e ↦ rw e (ap (λ v. record { score = v; prev = miss }) (field_id m ml mu))
]

module _ (pattern word : Text) where
  unfoldable pub wide_skip_first : ℕ → Cell → Cell
  wide_skip_first w before = record {
    on_miss = record { score = before.on_miss.score - skip_penalty word w; prev = miss };
    on_match = awful_info;
  }

  unfoldable pub wide_fill : ℕ → ℕ → Cell → Cell → Cell
  unfolding wide_better
  wide_fill p w left diagonal = record {
    on_miss =
        wide_better (skipped pattern word p w left.on_match.score)
          (skipped pattern word p w left.on_miss.score);
    on_match =
        wide_better (taken pattern word p w matched diagonal.on_match.score)
          (taken pattern word p w miss diagonal.on_miss.score);
  }

  -- The table without fields of 15 bits.
  unfoldable pub wide_scores : ℕ → ℕ → Cell
  unfolding wide_skip_first wide_fill
  wide_scores zero zero = record {
    on_miss = record { score = int_zero; prev = miss };
    on_match = awful_info;
  }
  wide_scores zero (suc w) = wide_skip_first w (wide_scores zero w)
  wide_scores (suc p) zero = record { on_miss = awful_info; on_match = awful_info }
  wide_scores (suc p) (suc w) =
      let left = wide_scores (suc p) w in
      let diagonal = wide_scores p w in
      if ltb w p
      then record { on_miss = awful_info; on_match = awful_info }
      else wide_fill p w left diagonal

  skipped_fits :
      (p w s : ℕ)
      → 56000 ≤ s
      → s < 66000
      → (49152 ≤ skipped pattern word p w s) × (skipped pattern word p w s < 81920)
  unfolding skipped
  skipped_fits p w s l u =
      (ground (arith, skip_penalty_upper word w, l), ground (arith, skip_penalty_upper word w, u))

  taken_fits :
      (p w : ℕ) (last : Action) (s : ℕ)
      → 56000 ≤ s
      → s < 66000
      → (49152 ≤ taken pattern word p w last s) × (taken pattern word p w last s < 81920)
  unfolding taken
  taken_fits p w last s l u = (
    ground (arith, match_bonus_lower pattern word p w last, l),
    ground (arith, match_bonus_upper pattern word p w last, u),
  )

  -- The values of a cell, well within the field.
  record Within (c : Cell) : Type 0 where
    miss_lower : 56000 ≤ c.on_miss.score
    miss_upper : c.on_miss.score < 66000
    match_lower : 56000 ≤ c.on_match.score
    match_upper : c.on_match.score < 66000

  Optima-Within : (p w : ℕ) (c : Cell) → p ≤ 63 → w ≤ 127 → Optima pattern word p w c → Within c
  Optima-Within p w c pl wl o = record {
    miss_lower = omega (arith, o.by_miss.lower_bound);
    miss_upper = omega (arith, o.by_miss.upper);
    match_lower = omega (arith, o.by_match.lower_bound);
    match_upper = omega (arith, o.by_match.upper);
  }

  skip_first_wide :
      (w : ℕ) (c : Cell) → Within c → skip_first pattern word w c ≡ wide_skip_first w c
  unfolding skip_first wide_skip_first
  skip_first_wide w c v =
      ap (λ (s : ℕ). record { on_miss = record { score = s; prev = miss }; on_match = awful_info })
        (field_id (c.on_miss.score - skip_penalty word w)
          (omega (arith, skip_penalty_upper word w, v.miss_lower)) (omega (arith, v.miss_upper)))

  fill_wide :
      (p w : ℕ) (left diagonal : Cell)
      → Within left
      → Within diagonal
      → fill pattern word p w left diagonal ≡ wide_fill p w left diagonal
  unfolding fill wide_fill
  fill_wide p w left diagonal v d =
      let lm = skipped_fits p w left.on_match.score v.match_lower v.match_upper in
      let ls = skipped_fits p w left.on_miss.score v.miss_lower v.miss_upper in
      let dm = taken_fits p w matched diagonal.on_match.score d.match_lower d.match_upper in
      let ds = taken_fits p w miss diagonal.on_miss.score d.miss_lower d.miss_upper in
      cell (wide_better-better _ _ lm.0 lm.1 ls.0 ls.1) (wide_better-better _ _ dm.0 dm.1 ds.0 ds.1)
    where
      cell :
          {a b x y : ScoreInfo}
          → a ≡ x
          → b ≡ y
          → ◌≡◌ {A = Cell}
              (record { on_miss = a; on_match = b })
              (record { on_miss = x; on_match = y })
      cell e f = rw (e, f) refl

  -- Where the pattern is not empty and has at most 63 characters, each cell that build_graph fills for
  -- a word of at most 127 characters has the scores and the links that it has where scores are not
  -- cut to 15 bits.
  pub scores-wide_scores :
      (p w : ℕ)
      → 0 < size pattern
      → p ≤ size pattern
      → size pattern ≤ 63
      → w ≤ 127
      → scores pattern word p w ≡ wide_scores p w
  unfolding scores wide_scores
  scores-wide_scores zero zero pos pl small wl = refl
  scores-wide_scores zero (suc w) pos pl small wl =
      let in_range : w ≤ 127 = omega (arith, wl) in
      let o = scores-Optima pattern word 0 w pos pl small in_range in
      skip_first_wide w (scores pattern word 0 w) (Optima-Within 0 w _ (omega arith) in_range o)
      ∙ ap (wide_skip_first w) (scores-wide_scores zero w pos pl small in_range)
  scores-wide_scores (suc p) zero pos pl small wl = refl
  scores-wide_scores (suc p) (suc w) pos pl small wl = elim (Bool-cases (ltb w p)) [
    | inl e ↦ rw e refl
    | inr e ↦
        let in_range : w ≤ 127 = omega (arith, wl) in
        let below : p ≤ size pattern = omega (arith, pl) in
        let o = scores-Optima pattern word (suc p) w pos pl small in_range in
        let d = scores-Optima pattern word p w pos below small in_range in
        rw e (
          fill_wide p w (scores pattern word (suc p) w) (scores pattern word p w)
            (Optima-Within (suc p) w _ (omega (arith, pl, small)) in_range o)
            (Optima-Within p w _ (omega (arith, below, small)) in_range d)
          ∙ ap (λ c. wide_fill p w c (scores pattern word p w))
              (scores-wide_scores (suc p) w pos pl small in_range)
          ∙ ap (λ c. wide_fill p w (wide_scores (suc p) w) c)
              (scores-wide_scores p w pos below small in_range))
  ]
