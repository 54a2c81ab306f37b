-- ===== src/Base/Totals.antt =====
-- The sum of a measure over the entries of a table.
use mathlib.Core.Path.{◌≡◌, refl, subst}
use mathlib.Core.Logic.{inl, inr}
use mathlib.Core.List.{[], ◌∷◌}
use mathlib.Core.Option.{Option, none, some}
use Prim.Native.Nat.{ℕ, ◌+◌}
use native.Mathlib.Omega.{arith}
use clice.Base.Tests.{Equality, ◌==◌, Bool-cases}
use clice.Base.Maps.{Table, lookup, insert, erase, NodupKeys}

unfoldable pub total {ℓ κ} : {K : Type ℓ} {V : Type κ} → (V → ℕ) → Table K V → ℕ
total f [] = 0
total f ((k, v) ∷ m) = f v + total f m

abbrev pub value {κ} : {V : Type κ} → (V → ℕ) → Option V → ℕ
value f none = 0
value f (some v) = f v

module _ {ℓ κ} {K : Type ℓ} {V : Type κ} ⦃e : Equality K⦄ (f : V → ℕ) where
  pub total-insert :
      (k : K) (v : V) (m : Table K V)
      → total f (insert k v m) + value f (lookup k m) ≡ total f m + f v
  unfolding total insert lookup
  total-insert k v [] = omega arith
  total-insert k v ((j, w) ∷ m) = elim (Bool-cases (j == k)) [
    | inl same ↦ rw same (omega arith)
    | inr other ↦ rw other (omega (arith, total-insert k v m))
  ]

  total-erase_missing :
      (k : K) (m : Table K V) → lookup k m ≡ none → total f (erase k m) ≡ total f m
  unfolding total erase lookup
  total-erase_missing k [] h = refl
  total-erase_missing k ((j, w) ∷ m) h = elim (Bool-cases (j == k)) [
    | inl same ↦ absurd (ground (arith, same, h))
    | inr other ↦ rw other (omega (arith, total-erase_missing k m (ground (arith, other, h))))
  ]

  pub total-erase :
      (k : K) (m : Table K V) → NodupKeys m → total f (erase k m) + value f (lookup k m) ≡ total f m
  unfolding total erase lookup
  total-erase k [] h = omega arith
  total-erase k ((j, w) ∷ m) h = elim (Bool-cases (j == k)) [
    | inl same ↦ rw same (
        omega (
          arith,
          total-erase_missing k m (subst (λ x. lookup x m ≡ none) ((e.test_iff j k).0 same) h.0),
        ))
    | inr other ↦ rw other (omega (arith, total-erase k m h.1))
  ]
