-- ===== src/Base/Lists.antt =====
-- Lists measured by native numbers, membership as a test, and counts.
use Prim.Native.Nat.{ℕ, suc, ◌+◌, ◌≤◌}
use mathlib.Core.Path.{◌≡◌, refl}
use mathlib.Core.Logic.{◌⊎◌}
use mathlib.Core.Bool.{Bool, true, false, ◌||◌}
use mathlib.Core.List.{List, [], ◌∷◌, ◌++◌}
use native.Mathlib.Omega.{arith}
use clice.Base.Tests.{Equality, ◌==◌, if◌then◌else◌}

module _ {ℓ} {A : Type ℓ} where
  abbrev pub length : List A → ℕ
  length [] = 0
  length (x ∷ xs) = suc (length xs)

  pub length-append : (xs ys : List A) → length (xs ++ ys) ≡ length xs + length ys
  length-append [] ys = omega arith
  length-append (x ∷ xs) ys = omega (arith, length-append xs ys)

  -- Successive `push_back` on a stack whose top is the head of the list.
  pub push_all : List A → List A → List A
  push_all [] stack = stack
  push_all (x ∷ xs) stack = push_all xs (x ∷ stack)

  pub length-push_all : (xs stack : List A) → length (push_all xs stack) ≡ length xs + length stack
  unfolding push_all
  length-push_all [] stack = omega arith
  length-push_all (x ∷ xs) stack = omega (arith, length-push_all xs (x ∷ stack))

  abbrev pub All {κ} : (A → Type κ) → List A → Type κ
  All P [] = Unit
  All P (x ∷ xs) = P x × All P xs

module _ {ℓ} {A : Type ℓ} ⦃e : Equality A⦄ where
  unfoldable pub contains : List A → A → Bool
  contains [] a = false
  contains (x ∷ xs) a = x == a || contains xs a

  -- The list without the entries equal to `a`, as `erase(remove(...))` leaves it.
  unfoldable pub remove : A → List A → List A
  remove a [] = []
  remove a (x ∷ xs) = if x == a then remove a xs else x ∷ remove a xs

  unfoldable pub count : A → List A → ℕ
  count a [] = 0
  count a (x ∷ xs) = if x == a then suc (count a xs) else count a xs

  pub contains-append :
      (xs ys : List A) (a : A) → contains (xs ++ ys) a ≡ (contains xs a || contains ys a)
  unfolding contains
  contains-append [] ys a = refl
  contains-append (x ∷ xs) ys a = ground (arith, contains-append xs ys a)

  pub contains-push_all :
      (xs ys : List A) (a : A) → contains (push_all xs ys) a ≡ (contains xs a || contains ys a)
  unfolding contains push_all
  contains-push_all [] ys a = refl
  contains-push_all (x ∷ xs) ys a = ground (arith, contains-push_all xs (x ∷ ys) a)

  pub contains-remove :
      (b : A) (xs : List A) (a : A)
      → contains (remove b xs) a ≡ (if b == a then false else contains xs a)
  unfolding contains remove
  contains-remove b [] a = ground arith
  contains-remove b (x ∷ xs) a =
      ground (arith, contains-remove b xs a, e.test_iff x b, e.test_iff x a, e.test_iff b a)

  pub length-remove : (b : A) (xs : List A) → length (remove b xs) ≤ length xs
  unfolding remove
  length-remove b [] = omega arith
  length-remove b (x ∷ xs) = ground (arith, length-remove b xs)

  pub count-append : (a : A) (xs ys : List A) → count a (xs ++ ys) ≡ count a xs + count a ys
  unfolding count
  count-append a [] ys = omega arith
  count-append a (x ∷ xs) ys = ground (arith, count-append a xs ys)

  pub eq_self : (a : A) → (a == a) ≡ true
  eq_self a = (e.test_iff a a).1 refl

  pub contains_cases :
      (x : A) (xs : List A) (a : A) → contains (x ∷ xs) a ≡ true → (x ≡ a) ⊎ (contains xs a ≡ true)
  unfolding contains
  contains_cases x xs a h = ground (arith, e.test_iff x a)

  pub contains_head : (a : A) (xs : List A) → contains (a ∷ xs) a ≡ true
  unfolding contains
  contains_head a xs = rw (eq_self a)

  pub contains_tail :
      (x : A) (xs : List A) (a : A) → contains xs a ≡ true → contains (x ∷ xs) a ≡ true
  unfolding contains
  contains_tail x xs a h = ground arith

  pub contains-push_all_cases :
      (xs ys : List A) (a : A)
      → contains (push_all xs ys) a ≡ true
      → (contains xs a ≡ true) ⊎ (contains ys a ≡ true)
  contains-push_all_cases xs ys a h = ground (arith, contains-push_all xs ys a)

  pub contains-push_all_new :
      (xs ys : List A) (a : A) → contains xs a ≡ true → contains (push_all xs ys) a ≡ true
  contains-push_all_new xs ys a h = ground (arith, contains-push_all xs ys a)

  pub contains-push_all_old :
      (xs ys : List A) (a : A) → contains ys a ≡ true → contains (push_all xs ys) a ≡ true
  contains-push_all_old xs ys a h = ground (arith, contains-push_all xs ys a)

  pub remove-remove : (a : A) (xs : List A) → remove a (remove a xs) ≡ remove a xs
  unfolding remove
  remove-remove a [] = refl
  remove-remove a (x ∷ xs) = ground (arith, remove-remove a xs)

  pub count_absent : (a : A) (xs : List A) → contains xs a ≡ false → count a xs ≡ 0
  unfolding contains count
  count_absent a [] h = refl
  count_absent a (x ∷ xs) h = ground (arith, count_absent a xs)

  pub contains_last_cases :
      (x : A) (xs : List A) (a : A)
      → contains (xs ++ (x ∷ [])) a ≡ true
      → (x ≡ a) ⊎ (contains xs a ≡ true)
  unfolding contains
  contains_last_cases x xs a h = ground (arith, contains-append xs (x ∷ []) a, e.test_iff x a)
