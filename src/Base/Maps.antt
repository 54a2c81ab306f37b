-- ===== src/Base/Maps.antt =====
-- Hash maps as association lists: one entry for a key, in the order of insertion.

use mathlib.Core.Path.{◌≡◌, refl, subst, sym}
use mathlib.Core.Logic.{inl, inr}
use mathlib.Core.Bool.{Bool, true, false, ◌&&◌}
use mathlib.Core.List.{List, [], ◌∷◌}
use mathlib.Core.Option
use mathlib.Core.Option.{Option, none, some}
use native.Mathlib.Omega.{arith}
use clice.Base.Tests.{Equality, ◌==◌, if◌then◌else◌, Bool-cases}
use clice.Base.Lists.{contains, eq_self}

abbrev pub Table {ℓ κ} : Type ℓ → Type κ → Type (ℓ ⊔ κ)
Table K V = List (K × V)

module _ {ℓ κ} {K : Type ℓ} {V : Type κ} where
  unfoldable pub keys : Table K V → List K
  keys [] = []
  keys ((k, v) ∷ m) = k ∷ keys m

module _ {ℓ κ} {K : Type ℓ} {V : Type κ} ⦃e : Equality K⦄ where
  unfoldable pub lookup : K → Table K V → Option V
  lookup key [] = none
  lookup key ((first, value) ∷ rest) = if first == key then some value else lookup key rest

  -- `m[k] = v`.
  unfoldable pub insert : K → V → Table K V → Table K V
  insert key value [] = (key, value) ∷ []
  insert key value ((first, old) ∷ rest) =
      if first == key then (first, value) ∷ rest else (first, old) ∷ insert key value rest

  unfoldable pub erase : K → Table K V → Table K V
  erase k [] = []
  erase k ((j, w) ∷ m) = if j == k then erase k m else (j, w) ∷ erase k m

  pub lookup-insert :
      (key other : K) (value : V) (table : Table K V)
      → lookup other (insert key value table)
        ≡ (if key == other then some value else lookup other table)
  unfolding lookup insert
  lookup-insert key other value [] = refl
  lookup-insert key other value ((first, old) ∷ rest) = ground (
    arith,
    lookup-insert key other value rest,
    e.test_iff key other,
    e.test_iff first key,
    e.test_iff first other,
  )

  pub lookup-erase :
      (k j : K) (m : Table K V) → lookup j (erase k m) ≡ (if k == j then none else lookup j m)
  unfolding lookup erase
  lookup-erase k j [] = ground arith
  lookup-erase k j ((i, w) ∷ m) =
      ground (arith, e.test_iff k j, e.test_iff i k, e.test_iff i j, lookup-erase k j m)

  -- `f` at the entry for `k`, if there is one.
  unfoldable pub adjust : K → (V → V) → Table K V → Table K V
  adjust k f [] = []
  adjust k f ((j, w) ∷ m) = if j == k then (j, f w) ∷ m else (j, w) ∷ adjust k f m

  pub lookup-adjust :
      (k j : K) (f : V → V) (m : Table K V)
      → lookup j (adjust k f m) ≡ (if k == j then Option.map f (lookup j m) else lookup j m)
  unfolding lookup adjust
  lookup-adjust k j f [] = ground arith
  lookup-adjust k j f ((i, w) ∷ m) =
      ground (arith, e.test_iff k j, e.test_iff i k, e.test_iff i j, lookup-adjust k j f m)

  -- No key stands twice.
  abbrev pub NodupKeys : Table K V → Type κ
  NodupKeys [] = Unit
  NodupKeys ((k, v) ∷ m) = (lookup k m ≡ none) × NodupKeys m

  pub insert-NodupKeys : (k : K) (v : V) (m : Table K V) → NodupKeys m → NodupKeys (insert k v m)
  unfolding insert lookup
  insert-NodupKeys k v [] h = (refl, tt)
  insert-NodupKeys k v ((j, w) ∷ m) h = elim (Bool-cases (j == k)) [
    | inl same ↦ rw same h
    | inr other ↦ rw other (
      ground (arith, h.0, other, lookup-insert k j v m, e.test_iff k j, e.test_iff j k),
      insert-NodupKeys k v m h.1,
    )
  ]

  pub adjust-NodupKeys :
      (k : K) (f : V → V) (m : Table K V) → NodupKeys m → NodupKeys (adjust k f m)
  unfolding adjust lookup
  adjust-NodupKeys k f [] h = h
  adjust-NodupKeys k f ((j, w) ∷ m) h = elim (Bool-cases (j == k)) [
    | inl same ↦ rw same h
    | inr other ↦ rw other (
      ground (arith, h.0, other, lookup-adjust k j f m, e.test_iff k j, e.test_iff j k),
      adjust-NodupKeys k f m h.1,
    )
  ]

  pub erase-NodupKeys : (k : K) (m : Table K V) → NodupKeys m → NodupKeys (erase k m)
  unfolding erase lookup
  erase-NodupKeys k [] h = h
  erase-NodupKeys k ((j, w) ∷ m) h = elim (Bool-cases (j == k)) [
    | inl same ↦ rw same (erase-NodupKeys k m h.1)
    | inr other ↦ rw other (ground (arith, h.0, lookup-erase k j m), erase-NodupKeys k m h.1)
  ]

  -- A test of every entry.
  unfoldable pub all_values : (V → Bool) → Table K V → Bool
  all_values p [] = true
  all_values p ((k, v) ∷ m) = p v && all_values p m

  pub all_values_of_lookup :
      (p : V → Bool) (m : Table K V)
      → NodupKeys m
      → ((k : K) (v : V) → lookup k m ≡ some v → p v ≡ true)
      → all_values p m ≡ true
  unfolding all_values lookup
  all_values_of_lookup p [] h all = refl
  all_values_of_lookup p ((j, w) ∷ m) h all = rw (all j w (rw (eq_self j))) (
      all_values_of_lookup p m h.1 λ k v found. elim (Bool-cases (j == k)) [
        | inl same ↦ absurd (
            some_ne_none v (subst (λ x. lookup x m ≡ some v) (sym ((e.test_iff j k).0 same)) found)
              h.0)
        | inr other ↦ all k v (rw other found)
      ])
    where
      some_ne_none : (v : V) → lookup j m ≡ some v → lookup j m ≡ none → ⊥
      some_ne_none v a b = cc

  pub lookup-missing : (k : K) (m : Table K V) → contains (keys m) k ≡ false → lookup k m ≡ none
  unfolding lookup keys contains
  lookup-missing k [] h = refl
  lookup-missing k ((j, v) ∷ m) h = ground (arith, lookup-missing k m)
