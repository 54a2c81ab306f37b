-- ===== src/CompileGraph/Interest/Counts.antt =====
-- The interest that the lists of `RefGuard` and `UnitGuard` take and give back
-- (src/server/compiler/compile_graph.cpp).

use clice.Base.{
  u32, ℕ, ◌+◌, ◌-◌, ◌%◌, ◌≡◌, refl, ◌∙◌, ap, true, List, [], ◌∷◌, arith, if◌then◌else◌, ◌==◌,
  nat_equality, Bool-cases, inl, inr, contains, count, ◌||◌, contains_head, contains_tail,
}
use clice.CompileGraph.State.{Graph, has_unit, refcount}
use clice.CompileGraph.Interest.Keeps.{
  Keeps, Keeps-trans, Quiet-refl, acquire-Keeps, release-Keeps, acquire-units, release-units,
  refcount-acquire, refcount-release,
}
use clice.CompileGraph.Interest.{acquire, release, acquire_all, release_all}

pub acquire_all-Keeps : (ds : List ℕ) (g : Graph) → Keeps g (acquire_all ds g)
unfolding acquire_all
acquire_all-Keeps [] g = (Quiet-refl g).keeps
acquire_all-Keeps (d ∷ ds) g = Keeps-trans (acquire-Keeps d g) (acquire_all-Keeps ds (acquire d g))

pub release_all-Keeps : (ds : List ℕ) (g : Graph) → Keeps g (release_all ds g)
unfolding release_all
release_all-Keeps [] g = (Quiet-refl g).keeps
release_all-Keeps (d ∷ ds) g = Keeps-trans (release-Keeps d g) (release_all-Keeps ds (release d g))

pub acquire_all-units :
    (ds : List ℕ) (g : Graph) (n : ℕ)
    → has_unit (acquire_all ds g) n ≡ (contains ds n || has_unit g n)
unfolding acquire_all contains
acquire_all-units [] g n = refl
acquire_all-units (d ∷ ds) g n =
    ground (arith, acquire_all-units ds (acquire d g) n, acquire-units d g n)

pub release_all-units :
    (ds : List ℕ) (g : Graph) (n : ℕ) → has_unit (release_all ds g) n ≡ has_unit g n
unfolding release_all
release_all-units [] g n = refl
release_all-units (d ∷ ds) g n = release_all-units ds (release d g) n ∙ release-units d g n

-- The interest that a list of references takes.
pub refcount-acquire_all :
    (ds : List ℕ) (g : Graph) (n k : ℕ)
    → refcount g n ≡ k % u32
    → refcount (acquire_all ds g) n ≡ (k + count n ds) % u32
unfolding acquire_all count
refcount-acquire_all [] g n k h = omega arith
refcount-acquire_all (d ∷ ds) g n k h = elim (Bool-cases (d == n)) [
  | inl same ↦ rw same (
      refcount-acquire_all ds (acquire d g) n (k + 1)
        (refcount-acquire d g n ∙ rw same (omega arith))
      ∙ ap (λ (x : ℕ). x % u32) (omega arith))
  | inr other ↦
      rw other (refcount-acquire_all ds (acquire d g) n k (refcount-acquire d g n ∙ rw other h))
]

-- What it gives back, where the units are there.
pub refcount-release_all :
    (ds : List ℕ) (g : Graph) (n k : ℕ)
    → ((d : ℕ) → contains ds d ≡ true → has_unit g d ≡ true)
    → refcount g n ≡ (k + count n ds) % u32
    → refcount (release_all ds g) n ≡ k % u32
unfolding release_all count
refcount-release_all [] g n k present h = h ∙ ap (λ (x : ℕ). x % u32) (omega arith)
refcount-release_all (d ∷ ds) g n k present h =
    refcount-release_all ds (release d g) n k
      (λ m hm. release-units d g m ∙ present m (contains_tail d ds m hm))
      (refcount-release d g n (present d (contains_head d ds)) ∙ lower)
  where
    lower :
        (if d == n then (refcount g n + u32 - 1) % u32 else refcount g n) ≡ (k + count n ds) % u32
    lower = elim (Bool-cases (d == n)) [
      | inl same ↦ let h' = rw same at h in rw same (omega arith)
      | inr other ↦ let h' = rw other at h in rw other h'
    ]
