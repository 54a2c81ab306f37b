-- ===== src/FuzzyMatcher/Subsequence.antt =====
-- src/support/fuzzy_matcher.cpp: the cheap check of `init`, against the subsequences of a word.
use mathlib.Core.List.{Sublistᴰ}
use clice.Base.{
  ℕ, suc, ◌≤◌, ◌≡◌, refl, sym, Bool, true, false, if◌then◌else◌, ltb, ◌↔◌, ◌⊎◌, inl, inr, [], ◌∷◌,
  map, length, arith, Bool-cases, nat_beq_iff, ◌==◌, nat_equality,
}
use clice.FuzzyMatcher.{Bytes, CharType, is_subsequence, init, segment, lower, truncate, max_word}

empty-Sublistᴰ : (ws : Bytes) → Sublistᴰ [] ws
empty-Sublistᴰ [] = Sublistᴰ.slnil
empty-Sublistᴰ (w ∷ ws) = Sublistᴰ.cons (empty-Sublistᴰ ws)

is_subsequence_sound : (ps ws : Bytes) → is_subsequence ps ws ≡ true → Sublistᴰ ps ws
unfolding is_subsequence
is_subsequence_sound [] ws h = empty-Sublistᴰ ws
is_subsequence_sound (p ∷ ps) [] h = ground arith
is_subsequence_sound (p ∷ ps) (w ∷ ws) h = elim (Bool-cases (w == p)) [
  | inl e ↦
      Sublistᴰ.cons-cons (sym ((nat_beq_iff w p).0 e)) (is_subsequence_sound ps ws (ground arith))
  | inr e ↦ Sublistᴰ.cons (is_subsequence_sound (p ∷ ps) ws (ground arith))
]

-- A subsequence without its first character, in the same word.
Sublistᴰ_tail : (p : ℕ) (ps ws : Bytes) → Sublistᴰ (p ∷ ps) ws → Sublistᴰ ps ws
Sublistᴰ_tail p ps _ (Sublistᴰ.cons {l₂ = ws} s) = Sublistᴰ.cons (Sublistᴰ_tail p ps ws s)
Sublistᴰ_tail p ps _ (Sublistᴰ.cons-cons e s) = Sublistᴰ.cons s

Sublistᴰ_cases :
    (p w : ℕ) (ps ws : Bytes)
    → Sublistᴰ (p ∷ ps) (w ∷ ws)
    → Sublistᴰ (p ∷ ps) ws ⊎ ((p ≡ w) × Sublistᴰ ps ws)
Sublistᴰ_cases p w ps ws (Sublistᴰ.cons s) = inl s
Sublistᴰ_cases p w ps ws (Sublistᴰ.cons-cons e s) = inr (e, s)

Sublistᴰ_empty : (p : ℕ) (ps : Bytes) → Sublistᴰ (p ∷ ps) [] → ⊥
Sublistᴰ_empty p ps s = elim s [ ]

is_subsequence_complete : (ps ws : Bytes) → Sublistᴰ ps ws → is_subsequence ps ws ≡ true
unfolding is_subsequence
is_subsequence_complete [] ws s = refl
is_subsequence_complete (p ∷ ps) [] s = absurd (Sublistᴰ_empty p ps s)
is_subsequence_complete (p ∷ ps) (w ∷ ws) s = elim (Sublistᴰ_cases p w ps ws s) [
  | inl t ↦ ground (
    arith,
    is_subsequence_complete (p ∷ ps) ws t,
    is_subsequence_complete ps ws (Sublistᴰ_tail p ps ws t),
  )
  | inr t ↦ ground (arith, is_subsequence_complete ps ws t.1, nat_beq_iff w p)
]

length-Sublistᴰ : (ps ws : Bytes) → Sublistᴰ ps ws → length ps ≤ length ws
length-Sublistᴰ [] ws s = omega arith
length-Sublistᴰ (p ∷ ps) [] s = absurd (Sublistᴰ_empty p ps s)
length-Sublistᴰ (p ∷ ps) (w ∷ ws) s = elim (Sublistᴰ_cases p w ps ws s) [
  | inl t ↦ omega (arith, length-Sublistᴰ (p ∷ ps) ws t)
  | inr t ↦ omega (arith, length-Sublistᴰ ps ws t.1)
]

length-map : (f : ℕ → ℕ) (xs : Bytes) → length (map f xs) ≡ length xs
length-map f [] = refl
length-map f (x ∷ xs) = omega (arith, length-map f xs)

passed :
    (short none_there found : Bool)
    → (if short then false else if none_there then true else found) ≡ true
    → none_there ≡ false
    → found ≡ true
passed short none_there found h e = ground (arith, h, e)

not_zero : (n : ℕ) → (suc n == 0) ≡ false
not_zero n = ground arith

init_sound :
    (outside : ℕ → CharType) (p w : Bytes)
    → init (segment outside p) w ≡ true
    → Sublistᴰ (map lower p) (map lower (truncate max_word w))
unfolding init segment
init_sound outside [] w h = empty-Sublistᴰ (map lower (truncate max_word w))
init_sound outside (x ∷ p) w h =
    is_subsequence_sound (map lower (x ∷ p)) (map lower (truncate max_word w)) (
      passed (ltb (length (truncate max_word w)) (length (x ∷ p))) (length (x ∷ p) == 0) _ h
        (not_zero (length p)))

init_complete :
    (outside : ℕ → CharType) (p w : Bytes)
    → Sublistᴰ (map lower p) (map lower (truncate max_word w))
    → init (segment outside p) w ≡ true
unfolding init segment
init_complete outside p w s =
    let word = truncate max_word w in
    ground (
      arith,
      is_subsequence_complete (map lower p) (map lower word) s,
      length-Sublistᴰ (map lower p) (map lower word) s,
      length-map lower p,
      length-map lower word,
    )

-- init answers true exactly when the lowercase pattern is a subsequence of the lowercase word, where a
-- word of more than 127 bytes is cut to its first 127.
pub init-Sublistᴰ :
    (outside : ℕ → CharType) (p w : Bytes)
    → (init (segment outside p) w ≡ true) ↔ Sublistᴰ (map lower p) (map lower (truncate max_word w))
init-Sublistᴰ outside p w = (init_sound outside p w, init_complete outside p w)
