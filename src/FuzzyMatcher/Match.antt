-- ===== src/FuzzyMatcher/Match.antt =====
-- src/support/fuzzy_matcher.cpp: what `match` answers.
use clice.Base.{
  ℕ, zero, suc, ◌+◌, ◌*◌, ◌≤◌, ◌<◌, ◌≡◌, sym, subst, ◌⊎◌, inl, inr, Bool, true, false, Option, none,
  some, [], ◌∷◌, length, if◌then◌else◌, ◌==◌, nat_equality, arith, Bool-cases, ltb→lt, max,
}
use clice.FuzzyMatcher.{Text, size, CharType, Bytes, segment, truncate, max_pat, max_word, init}
use clice.FuzzyMatcher.Score.{Action, miss, matched, awful, is_awful}
use clice.FuzzyMatcher.Graph.{Cell, scores, best, Score, scaled, match, pattern_text}
use clice.FuzzyMatcher.Alignment.{Actions, last_of, evaluate, evaluate-Bounds}
use clice.FuzzyMatcher.Optimal.{Optimum, Ends}
use clice.FuzzyMatcher.Table.{Optima, scores-Optima, Action-cases}

length-truncate : (n : ℕ) (xs : Bytes) → length (truncate n xs) ≤ n
unfolding truncate
length-truncate zero xs = omega arith
length-truncate (suc n) [] = omega arith
length-truncate (suc n) (x ∷ xs) = omega (arith, length-truncate n xs)

max_cases : (m k : ℕ) → (max m k ≡ m) ⊎ (max m k ≡ k)
max_cases m k = ground arith

module _ (pattern word : Text) where
  -- The whole pattern aligned with the whole word.
  pub record Whole (s : ℕ) : Type 0 where
    pub acts : Actions
    pub length_of : length acts ≡ size word
    pub value : evaluate pattern word acts ≡ some (size pattern, s)

  -- What `match` answers behind the subsequence check.
  pub data Answers : Option Score → Type 0 where
    no_alignment : ((s : ℕ) → Whole s → ⊥) → Answers none
    best_alignment :
        (s : ℕ)
        → Whole s
        → ((t : ℕ) → Whole t → t ≤ s)
        → Answers (some (scaled (size pattern) s (size word == size pattern)))

  abbrev AwfulOr : ℕ → Type 0
  AwfulOr v = (v ≤ awful + 4 * size pattern) ⊎ Whole v

  record BestWhole (v : ℕ) : Type 0 where
    at_most : (t : ℕ) → Whole t → t ≤ v
    reached : AwfulOr v

  AwfulOr-equal : {u v : ℕ} → u ≡ v → AwfulOr u → AwfulOr v
  AwfulOr-equal e r = subst AwfulOr e r

  Optimum-Whole :
      (a : Action) (v : ℕ)
      → Optimum pattern word (Ends pattern word (size word) a) (size pattern) (size word) v
      → AwfulOr v
  Optimum-Whole a v o = elim o.reached [
    | inl l ↦ inl l
    | inr (acts, ends, e) ↦ inr (record { acts = acts; length_of = ends.size_of; value = e })
  ]

  Whole-at_most :
      (c : Cell) (t : ℕ)
      → Optima pattern word (size pattern) (size word) c
      → Whole t
      → (t ≤ c.on_miss.score) ⊎ (t ≤ c.on_match.score)
  Whole-at_most c t o w = elim (Action-cases (last_of w.acts)) [
    | inl h ↦ inr (o.by_match.at_most w.acts t (record { size_of = w.length_of; last = h }) w.value)
    | inr h ↦ inl (o.by_miss.at_most w.acts t (record { size_of = w.length_of; last = h }) w.value)
  ]

  BestWhole-max :
      (c : Cell)
      → Optima pattern word (size pattern) (size word) c
      → BestWhole (max c.on_miss.score c.on_match.score)
  BestWhole-max c o = record {
    at_most =
        λ t w. elim (Whole-at_most c t o w) [ inl l ↦ omega (arith, l) | inr l ↦ omega (arith, l) ];
    reached = elim (max_cases c.on_miss.score c.on_match.score) [
      | inl e ↦ AwfulOr-equal (sym e) (Optimum-Whole miss c.on_miss.score o.by_miss)
      | inr e ↦ AwfulOr-equal (sym e) (Optimum-Whole matched c.on_match.score o.by_match)
    ];
  }

  best-BestWhole :
      0 < size pattern → size pattern ≤ 63 → size word ≤ 127 → BestWhole (best pattern word)
  unfolding best
  best-BestWhole pos small wl =
      BestWhole-max (scores pattern word (size pattern) (size word))
        (scores-Optima pattern word (size pattern) (size word) pos (omega arith) small wl)

  Whole-lower : size pattern ≤ 63 → size word ≤ 127 → (t : ℕ) → Whole t → 61440 ≤ t
  Whole-lower small wl t w =
      let b = evaluate-Bounds pattern word w.acts (size pattern) t w.value in
      omega (arith, b.lower_bound, w.length_of)

  answer-Answers :
      size pattern ≤ 63
      → size word ≤ 127
      → BestWhole (best pattern word)
      → Answers (
          if is_awful (best pattern word)
          then none
          else some (scaled (size pattern) (best pattern word) (size word == size pattern)))
  unfolding is_awful
  answer-Answers small wl b = elim (Bool-cases (is_awful (best pattern word))) [
    | inl e ↦ rw e (
        no_alignment (λ t w. absurd (
          omega
            (arith, Whole-lower small wl t w, b.at_most t w, ltb→lt (best pattern word) 61440 e))))
    | inr e ↦ rw e (elim b.reached [
      | inl l ↦ absurd (ground (arith, l, e))
      | inr w ↦ best_alignment (best pattern word) w b.at_most
    ])
  ]

-- For a pattern that is not empty and a word that passes the subsequence check, match answers nothing
-- exactly where no alignment of the pattern with the word exists, and else the scaled best score of
-- an alignment.
pub match-Answers :
    (outside : ℕ → CharType) (p s : Bytes)
    → 0 < size (pattern_text outside p)
    → init (pattern_text outside p) s ≡ true
    → Answers
        (pattern_text outside p)
        (segment outside (truncate max_word s))
        (match outside (pattern_text outside p) s)
unfolding match pattern_text truncate segment
match-Answers outside p s pos passed =
    let pattern = pattern_text outside p in
    let word = segment outside (truncate max_word s) in
    let small : size pattern ≤ 63 = length-truncate max_pat p in
    let wl : size word ≤ 127 = length-truncate max_word s in
    let some_size : (size pattern == 0) ≡ false = ground (arith, pos) in
    rw (passed, some_size)
      (answer-Answers pattern word small wl (best-BestWhole pattern word pos small wl))

-- The fraction is at most 2, and at most 1 where the whole word was not asked for.
abbrev pub ScoreBounds : Bool → Option Score → Type 0
ScoreBounds whole none = Unit
ScoreBounds whole (some r) =
    (r.numerator ≤ 2 * r.denominator) × (whole ≡ false → r.numerator ≤ r.denominator)

scaled-ScoreBounds : (n b : ℕ) (whole : Bool) → ScoreBounds whole (some (scaled n b whole))
scaled-ScoreBounds n b true = (omega arith, λ e. ground (arith, e))
scaled-ScoreBounds n b false = (omega arith, λ e. omega arith)

-- A score of match is at most 2, and at most 1 where the word, cut to its bound, is not as long as the
-- pattern.
pub match-ScoreBounds :
    (outside : ℕ → CharType) (pattern : Text) (s : Bytes)
    → ScoreBounds
        (size (segment outside (truncate max_word s)) == size pattern)
        (match outside pattern s)
unfolding match
match-ScoreBounds outside pattern s =
    let word = segment outside (truncate max_word s) in
    let whole = size word == size pattern in
    elim (Bool-cases (init pattern s)) [
      | inl e ↦ rw e (elim (Bool-cases (size pattern == 0)) [
        | inl z ↦ rw z (omega arith, λ e. omega arith)
        | inr z ↦ rw z (elim (Bool-cases (is_awful (best pattern word))) [
          | inl h ↦ rw h tt
          | inr h ↦ rw h (scaled-ScoreBounds (size pattern) (best pattern word) whole)
        ])
      ])
      | inr e ↦ rw e tt
    ]
