-- ===== src/FuzzyMatcher/Table.antt =====
-- src/support/fuzzy_matcher.cpp: `build_graph` and `match` against the alignments.
use clice.Base.{
  ℕ, zero, suc, ◌-◌, ◌≤◌, ◌<◌, ◌≡◌, refl, sym, subst, ap, ◌∙◌, ◌⊎◌, inl, inr, some, [], ◌∷◌, length,
  ltb, nat_equality, arith, Bool-cases,
}
use clice.FuzzyMatcher.{Text, size}
use clice.FuzzyMatcher.Score.{Action, miss, matched, int_zero, awful, skip_penalty, field}
use clice.FuzzyMatcher.Bonus.{field_id}
use clice.FuzzyMatcher.Graph.{Cell, better, skipped, taken, fill, skip_first, scores}
use clice.FuzzyMatcher.Alignment.{
  Actions, last_of, penalty, evaluate, then_act-Skips, then_act-Takes, evaluate-Bounds,
}
use clice.FuzzyMatcher.Optimal.{
  Optimum, Ends, Then, none-Optimum, join-Optimum, replace-Optimum, skip-Optimum, take-Optimum,
}

pub Action-cases : (a : Action) → (a ≡ matched) ⊎ (a ≡ miss)
Action-cases miss = inr refl
Action-cases matched = inl refl

module _ (pattern word : Text) where
  Ends-Then :
      (w : ℕ) (b : Action) (acts : Actions)
      → Ends pattern word (suc w) b acts
      → Then pattern word b w matched acts ⊎ Then pattern word b w miss acts
  Ends-Then w b [] e = absurd (omega (arith, e.size_of))
  Ends-Then w b (x ∷ rest) e =
      let shape : x ∷ rest ≡ b ∷ rest = ap (λ a. a ∷ rest) e.last in
      let same : length rest ≡ w = omega (arith, e.size_of) in
      elim (Action-cases (last_of rest)) [
        | inl h ↦
            inl (record { rest = rest; shape = shape; ends = record { size_of = same; last = h } })
        | inr h ↦
            inr (record { rest = rest; shape = shape; ends = record { size_of = same; last = h } })
      ]

  Then-Ends :
      (w : ℕ) (b a : Action) (acts : Actions)
      → Then pattern word b w a acts
      → Ends pattern word (suc w) b acts
  Then-Ends w b a acts t = record {
    size_of = ap length t.shape ∙ ap suc t.ends.size_of;
    last = ap last_of t.shape;
  }

  -- Both values of a cell.
  pub record Optima (p w : ℕ) (c : Cell) : Type 0 where
    pub by_miss : Optimum pattern word (Ends pattern word w miss) p w c.on_miss.score
    pub by_match : Optimum pattern word (Ends pattern word w matched) p w c.on_match.score

  abbrev Ways : Action → ℕ → Actions → Type 0
  Ways b w acts = Then pattern word b w matched acts ⊎ Then pattern word b w miss acts

  Ways-Ends :
      (b : Action) (w : ℕ) (acts : Actions) → Ways b w acts → Ends pattern word (suc w) b acts
  Ways-Ends b w acts (inl t) = Then-Ends w b matched acts t
  Ways-Ends b w acts (inr t) = Then-Ends w b miss acts t

  better-Optimum :
      (b : Action) (p w k m : ℕ)
      → p ≤ 63
      → w < 127
      → Optimum pattern word (Then pattern word b w matched) p (suc w) k
      → Optimum pattern word (Then pattern word b w miss) p (suc w) m
      → Optimum pattern word (Ends pattern word (suc w) b) p (suc w) (better k m).score
  better-Optimum b p w k m pl wl ok om =
      replace-Optimum pattern word (Ways b w) (Ends pattern word (suc w) b) p (suc w)
        (better k m).score (λ acts s e _. Ends-Then w b acts e) (λ acts x. Ways-Ends b w acts x)
        (join-Optimum pattern word (Then pattern word b w matched) (Then pattern word b w miss) p
          (suc w) k m pl (omega (arith, wl)) ok om)

  skipped-penalty :
      (p w v : ℕ)
      → p < size pattern
      → skipped pattern word p w v ≡ v - penalty pattern word (suc p) w
  unfolding skipped penalty
  skipped-penalty p w v l = ground arith

  after_skip :
      (p w : ℕ) (a : Action) (v : ℕ)
      → p < size pattern
      → Optimum pattern word (Ends pattern word w a) (suc p) w v
      → Optimum pattern word
          (Then pattern word miss w a)
          (suc p)
          (suc w)
          (skipped pattern word p w v)
  after_skip p w a v l o =
      subst (λ x. Optimum pattern word (Then pattern word miss w a) (suc p) (suc w) x)
        (sym (skipped-penalty p w v l)) (skip-Optimum pattern word (suc p) w v a o)

  fill-Optima :
      (p w : ℕ) (left diagonal : Cell)
      → p < size pattern
      → size pattern ≤ 63
      → w < 127
      → Optima (suc p) w left
      → Optima p w diagonal
      → Optima (suc p) (suc w) (fill pattern word p w left diagonal)
  unfolding fill
  fill-Optima p w left diagonal l pl wl ol od = record {
    by_miss =
        better-Optimum miss (suc p) w (skipped pattern word p w left.on_match.score)
          (skipped pattern word p w left.on_miss.score) (omega arith) wl
          (after_skip p w matched left.on_match.score l ol.by_match)
          (after_skip p w miss left.on_miss.score l ol.by_miss);
    by_match =
        better-Optimum matched (suc p) w (taken pattern word p w matched diagonal.on_match.score)
          (taken pattern word p w miss diagonal.on_miss.score) (omega arith) wl
          (take-Optimum pattern word p w diagonal.on_match.score matched l od.by_match)
          (take-Optimum pattern word p w diagonal.on_miss.score miss l od.by_miss);
  }

  -- An alignment without a match ends with a skip.
  first_row :
      (r : Actions) (s : ℕ) → last_of r ≡ matched → evaluate pattern word r ≡ some (0, s) → ⊥
  unfolding evaluate
  first_row [] s h e = ground arith
  first_row (miss ∷ r) s h e = ground arith
  first_row (matched ∷ r) s h e =
      let way =
        then_act-Takes pattern word (evaluate pattern word r) (length r) (last_of r) 0 s e in
      omega (arith, way.count)

  first_row-Ends :
      (w : ℕ) (acts : Actions) (s : ℕ)
      → Ends pattern word (suc w) miss acts
      → evaluate pattern word acts ≡ some (0, s)
      → Then pattern word miss w miss acts
  unfolding evaluate
  first_row-Ends w acts s ends e = elim (Ends-Then w miss acts ends) [
    | inl t ↦
        let told = subst (λ x. evaluate pattern word x ≡ some (0, s)) t.shape e in
        let way =
          then_act-Skips pattern word (evaluate pattern word t.rest) (length t.rest)
            (last_of t.rest) 0 s told in
        absurd (first_row t.rest way.before t.ends.last way.value)
    | inr t ↦ t
  ]

  no_match_first : (w : ℕ) → Optimum pattern word (Ends pattern word w matched) 0 w awful
  no_match_first w =
      none-Optimum pattern word (Ends pattern word w matched) 0 w
        (λ acts s ends e. first_row acts s ends.last e)

  -- A pattern that is longer than the word has no alignment.
  too_short :
      (p w : ℕ) (a : Action) → w < p → Optimum pattern word (Ends pattern word w a) p w awful
  too_short p w a l = none-Optimum pattern word (Ends pattern word w a) p w (λ acts s ends e.
      let b = evaluate-Bounds pattern word acts p s e in omega (arith, b.in_word, ends.size_of, l))

  start_only :
      (acts : Actions) (s : ℕ)
      → Ends pattern word 0 miss acts
      → evaluate pattern word acts ≡ some (0, s)
      → s ≤ int_zero
  unfolding evaluate
  start_only [] s ends e = ground arith
  start_only (a ∷ acts) s ends e = absurd (omega (arith, ends.size_of))

  start-Optima : Optima 0 0 (scores pattern word 0 0)
  unfolding scores evaluate
  start-Optima = record {
    by_miss = record {
      at_most = λ acts s ends e. start_only acts s ends e;
      reached = inr ([], record { size_of = refl; last = refl }, refl);
      lower_bound = omega arith;
      upper = omega arith;
    };
    by_match = no_match_first 0;
  }

  first_penalty : (w : ℕ) → 0 < size pattern → penalty pattern word 0 w ≡ skip_penalty word w
  unfolding penalty
  first_penalty w pos = ground arith

  skip_first-Optima :
      (w : ℕ) (before : Cell)
      → 0 < size pattern
      → w < 127
      → Optima 0 w before
      → Optima 0 (suc w) (skip_first pattern word w before)
  unfolding skip_first
  skip_first-Optima w before pos wl o = record {
    by_miss =
        let s = before.on_miss.score in
        let new = s - penalty pattern word 0 w in
        let made = skip-Optimum pattern word 0 w s miss o.by_miss in
        let kept : field (s - skip_penalty word w) ≡ new =
          ap field (ap (λ k. s - k) (sym (first_penalty w pos)))
          ∙ field_id new (omega (arith, made.lower_bound)) (omega (arith, made.upper)) in
        subst (λ x. Optimum pattern word (Ends pattern word (suc w) miss) 0 (suc w) x) (sym kept)
          (replace-Optimum pattern word (Then pattern word miss w miss)
            (Ends pattern word (suc w) miss) 0 (suc w) new
            (λ acts s ends e. first_row-Ends w acts s ends e)
            (λ acts t. Then-Ends w miss miss acts t) made);
    by_match = no_match_first (suc w);
  }

  pub scores-Optima :
      (p w : ℕ)
      → 0 < size pattern
      → p ≤ size pattern
      → size pattern ≤ 63
      → w ≤ 127
      → Optima p w (scores pattern word p w)
  unfolding scores
  scores-Optima zero zero pos pl small wl = start-Optima
  scores-Optima zero (suc w) pos pl small wl =
      skip_first-Optima w (scores pattern word 0 w) pos wl
        (scores-Optima zero w pos pl small (omega (arith, wl)))
  scores-Optima (suc p) zero pos pl small wl = record {
    by_miss = too_short (suc p) 0 miss (omega arith);
    by_match = too_short (suc p) 0 matched (omega arith);
  }
  scores-Optima (suc p) (suc w) pos pl small wl = elim (Bool-cases (ltb w p)) [
    | inl e ↦ rw e (record {
      by_miss = too_short (suc p) (suc w) miss (ground (arith, e));
      by_match = too_short (suc p) (suc w) matched (ground (arith, e));
    })
    | inr e ↦ rw e (
        fill-Optima p w (scores pattern word (suc p) w) (scores pattern word p w) pl small wl
          (scores-Optima (suc p) w pos pl small (omega (arith, wl)))
          (scores-Optima p w pos (omega (arith, pl)) small (omega (arith, wl))))
  ]
