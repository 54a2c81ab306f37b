-- ===== src/FuzzyMatcher/Optimal.antt =====
-- src/support/fuzzy_matcher.cpp: the best score among the alignments of a family, and how the steps of
-- `build_graph` combine it.
use clice.Base.{
  ℕ, suc, ◌+◌, ◌-◌, ◌*◌, ◌≤◌, ◌<◌, ◌≡◌, refl, sym, subst, ap, ◌⊎◌, inl, inr, true, some, ◌∷◌,
  length, ltb, nat_equality, arith, Bool-cases,
}
use clice.FuzzyMatcher.{Text, size}
use clice.FuzzyMatcher.Score.{Action, miss, matched, int_zero, awful, allow_match, match_bonus}
use clice.FuzzyMatcher.Bonus.{match_bonus_lower, match_bonus_upper, field_id}
use clice.FuzzyMatcher.Graph.{better, taken}
use clice.FuzzyMatcher.Alignment.{
  Actions, last_of, penalty, penalty_upper, evaluate, act, then_act, then_act-Skips, then_act-Takes,
}

-- The better of two values that fit is one of them, and no less than the other.
pub record Better (k m v : ℕ) : Type 0 where
  pub above_match : k ≤ v
  pub above_miss : m ≤ v
  pub is_one : (v ≡ k) ⊎ (v ≡ m)

better-Better :
    (k m : ℕ) → 49152 ≤ k → k < 81920 → 49152 ≤ m → m < 81920 → Better k m (better k m).score
unfolding better
better-Better k m kl ku ml mu = record {
  above_match = ground (arith, field_id k kl ku, field_id m ml mu);
  above_miss = ground (arith, field_id k kl ku, field_id m ml mu);
  is_one = ground (arith, field_id k kl ku, field_id m ml mu);
}

module _ (pattern word : Text) where
  -- A value is that of an alignment of the family, or an awful one.
  abbrev pub Reached : (F : Actions → Type 0) (p v : ℕ) → Type 0
  Reached F p v =
      (v ≤ awful + 4 * p) ⊎ ((acts : Actions) × F acts × (evaluate pattern word acts ≡ some (p, v)))

  widen-Reached :
      (F G : Actions → Type 0) (p v u : ℕ)
      → ((acts : Actions) → F acts → G acts)
      → v ≡ u
      → Reached F p v
      → Reached G p u
  widen-Reached F G p v u widen e (inl l) = inl (omega (arith, e))
  widen-Reached F G p v u widen e (inr (acts, f, h)) =
      inr (acts, widen acts f, subst (λ x. evaluate pattern word acts ≡ some (p, x)) e h)

  -- The best value among the alignments of a family that match `p` characters.
  pub record Optimum (F : Actions → Type 0) (p w v : ℕ) : Type 0 where
    pub at_most :
        (acts : Actions) (s : ℕ) → F acts → evaluate pattern word acts ≡ some (p, s) → s ≤ v
    pub reached : Reached F p v
    pub lower_bound : awful ≤ v + 4 * p + 3 * w
    pub upper : v ≤ int_zero + 4 * p

  -- The alignments of the first `w` characters with this last action.
  pub record Ends (w : ℕ) (a : Action) (acts : Actions) : Type 0 where
    pub size_of : length acts ≡ w
    pub last : last_of acts ≡ a

  pub record Then (b : Action) (w : ℕ) (a : Action) (acts : Actions) : Type 0 where
    pub rest : Actions
    pub shape : acts ≡ b ∷ rest
    pub ends : Ends w a rest

  pub none-Optimum :
      (F : Actions → Type 0) (p w : ℕ)
      → ((acts : Actions) (s : ℕ) → F acts → evaluate pattern word acts ≡ some (p, s) → ⊥)
      → Optimum F p w awful
  none-Optimum F p w h = record {
    at_most = λ acts s f e. absurd (h acts s f e);
    reached = inl (omega arith);
    lower_bound = omega arith;
    upper = omega arith;
  }

  pub replace-Optimum :
      (F G : Actions → Type 0) (p w v : ℕ)
      → ((acts : Actions) (s : ℕ) → G acts → evaluate pattern word acts ≡ some (p, s) → F acts)
      → ((acts : Actions) → F acts → G acts)
      → Optimum F p w v
      → Optimum G p w v
  replace-Optimum F G p w v narrow widen o = record {
    at_most = λ acts s g e. o.at_most acts s (narrow acts s g e) e;
    reached = widen-Reached F G p v v widen refl o.reached;
    lower_bound = o.lower_bound;
    upper = o.upper;
  }

  pub join-Optimum :
      (F G : Actions → Type 0) (p w k m : ℕ)
      → p ≤ 63
      → w ≤ 127
      → Optimum F p w k
      → Optimum G p w m
      → Optimum (λ acts. F acts ⊎ G acts) p w (better k m).score
  join-Optimum F G p w k m pl wl of og =
      let v = (better k m).score in
      let b =
        better-Better k m (omega (arith, of.lower_bound)) (omega (arith, of.upper))
          (omega (arith, og.lower_bound)) (omega (arith, og.upper)) in
      record {
        at_most = λ acts s f e. elim f [
          | inl x ↦ omega (arith, of.at_most acts s x e, b.above_match)
          | inr y ↦ omega (arith, og.at_most acts s y e, b.above_miss)
        ];
        reached = elim b.is_one [
          | inl e ↦
              widen-Reached F (λ acts. F acts ⊎ G acts) p k v (λ acts x. inl x) (sym e) of.reached
          | inr e ↦
              widen-Reached G (λ acts. F acts ⊎ G acts) p m v (λ acts y. inr y) (sym e) og.reached
        ];
        lower_bound = omega (arith, of.lower_bound, b.above_match);
        upper = elim b.is_one [
          | inl e ↦ omega (arith, of.upper, e)
          | inr e ↦ omega (arith, og.upper, e)
        ];
      }

  skip_most :
      (p w v : ℕ) (a : Action) (acts : Actions) (s : ℕ)
      → Optimum (Ends w a) p w v
      → Then miss w a acts
      → evaluate pattern word acts ≡ some (p, s)
      → s ≤ v - penalty pattern word p w
  unfolding evaluate
  skip_most p w v a acts s o t e =
      let r = t.rest in
      let told = subst (λ x. evaluate pattern word x ≡ some (p, s)) t.shape e in
      let way =
        then_act-Skips pattern word (evaluate pattern word r) (length r) (last_of r) p s told in
      let same = ap (λ n. penalty pattern word p n) t.ends.size_of in
      omega (arith, way.score, o.at_most r way.before t.ends way.value, same)

  skip_made :
      (p w v : ℕ) (a : Action) (r : Actions)
      → Ends w a r
      → evaluate pattern word r ≡ some (p, v)
      → evaluate pattern word (miss ∷ r) ≡ some (p, v - penalty pattern word p w)
  unfolding evaluate then_act act
  skip_made p w v a r ends e = rw (e, ends.size_of)

  skip-Reached :
      (p w v : ℕ) (a : Action)
      → Reached (Ends w a) p v
      → Reached (Then miss w a) p (v - penalty pattern word p w)
  skip-Reached p w v a (inl l) = inl (omega (arith, l))
  skip-Reached p w v a (inr (r, ends, e)) =
      inr (miss ∷ r, record { rest = r; shape = refl; ends = ends }, skip_made p w v a r ends e)

  pub skip-Optimum :
      (p w v : ℕ) (a : Action)
      → Optimum (Ends w a) p w v
      → Optimum (Then miss w a) p (suc w) (v - penalty pattern word p w)
  skip-Optimum p w v a o = record {
    at_most = λ acts s t e. skip_most p w v a acts s o t e;
    reached = skip-Reached p w v a o.reached;
    lower_bound = omega (arith, o.lower_bound, penalty_upper pattern word p w);
    upper = omega (arith, o.upper);
  }

  take_most :
      (p w v : ℕ) (a : Action) (acts : Actions) (s : ℕ)
      → Optimum (Ends w a) p w v
      → Then matched w a acts
      → evaluate pattern word acts ≡ some (suc p, s)
      → s ≤ taken pattern word p w a v
  unfolding evaluate taken
  take_most p w v a acts s o t e =
      let r = t.rest in
      let told = subst (λ x. evaluate pattern word x ≡ some (suc p, s)) t.shape e in
      let moved : then_act pattern word w a matched (evaluate pattern word r) ≡ some (suc p, s) =
        cc (told, t.ends.size_of, t.ends.last) in
      let way = then_act-Takes pattern word (evaluate pattern word r) w a (suc p) s moved in
      let q = way.matched_before in
      let t0 = way.before in
      let same : q ≡ p = omega (arith, way.count) in
      let value : evaluate pattern word r ≡ some (p, t0) = cc (way.value, same) in
      let allowed : allow_match pattern word p w a ≡ true = cc (way.allowed, same) in
      let points : match_bonus pattern word q w a ≡ match_bonus pattern word p w a = cc (same) in
      ground (arith, allowed, points, way.score, o.at_most r t0 t.ends value)

  take_made :
      (p w v : ℕ) (a : Action) (r : Actions)
      → p < size pattern
      → allow_match pattern word p w a ≡ true
      → Ends w a r
      → evaluate pattern word r ≡ some (p, v)
      → evaluate pattern word (matched ∷ r)
        ≡ some (suc p, v + match_bonus pattern word p w a - int_zero)
  unfolding evaluate then_act act
  take_made p w v a r l allowed ends e =
      let within : ltb p (size pattern) ≡ true = ground arith in
      rw (e, ends.size_of, ends.last, allowed, within)

  take-Reached :
      (p w v : ℕ) (a : Action)
      → p < size pattern
      → Reached (Ends w a) p v
      → Reached (Then matched w a) (suc p) (taken pattern word p w a v)
  unfolding taken
  take-Reached p w v a l (inl h) = inl (ground (arith, h, match_bonus_upper pattern word p w a))
  take-Reached p w v a l (inr (r, ends, e)) = elim (Bool-cases (allow_match pattern word p w a)) [
    | inl b ↦ inr (
      matched ∷ r,
      record { rest = r; shape = refl; ends = ends },
      rw (b, take_made p w v a r l b ends e),
    )
    | inr b ↦ inl (ground arith)
  ]

  pub take-Optimum :
      (p w v : ℕ) (a : Action)
      → p < size pattern
      → Optimum (Ends w a) p w v
      → Optimum (Then matched w a) (suc p) (suc w) (taken pattern word p w a v)
  unfolding taken
  take-Optimum p w v a l o = record {
    at_most = λ acts s t e. take_most p w v a acts s o t e;
    reached = take-Reached p w v a l o.reached;
    lower_bound = ground (arith, o.lower_bound, match_bonus_lower pattern word p w a);
    upper = ground (arith, o.upper, match_bonus_upper pattern word p w a);
  }
