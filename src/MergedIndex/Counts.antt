-- ===== src/MergedIndex/Counts.antt =====
-- The vector of reference counts and the set of removed ids of src/index/merged_index.cpp.
use clice.Base.{
  u32, ℕ, suc, zero, ◌+◌, ◌-◌, ◌%◌, ◌≤◌, ◌<◌, ◌≡◌, refl, ◌∙◌, ap, subst, Bool, true, false, ◌||◌,
  List, [], ◌∷◌, ◌++◌, arith, length, contains, contains-remove, if◌then◌else◌, ◌==◌, nat_equality,
  nat_beq_iff,
}
use clice.MergedIndex.{Impl, count_at, edit_at, add_member, drop_use, add_use}

pub length-edit_at : (c : ℕ) (f : ℕ → ℕ) (xs : List ℕ) → length (edit_at c f xs) ≡ length xs
unfolding edit_at
length-edit_at c f [] = refl
length-edit_at zero f (x ∷ xs) = refl
length-edit_at (suc c) f (x ∷ xs) = ap suc (length-edit_at c f xs)

pub count_at-edit_at :
    (c : ℕ) (f : ℕ → ℕ) (xs : List ℕ) (d : ℕ)
    → c < length xs
    → count_at d (edit_at c f xs) ≡ (if c == d then f (count_at d xs) else count_at d xs)
unfolding count_at edit_at
count_at-edit_at c f [] d h = absurd (omega arith)
count_at-edit_at zero f (x ∷ xs) zero h = refl
count_at-edit_at zero f (x ∷ xs) (suc d) h = ground arith
count_at-edit_at (suc c) f (x ∷ xs) zero h = ground arith
count_at-edit_at (suc c) f (x ∷ xs) (suc d) h =
    ground (arith, count_at-edit_at c f xs d (omega arith))

pub count_at-append :
    (xs : List ℕ) (x d : ℕ)
    → count_at d (xs ++ (x ∷ [])) ≡ (if length xs == d then x else count_at d xs)
unfolding count_at
count_at-append [] x zero = ground arith
count_at-append [] x (suc d) = ground arith
count_at-append (y ∷ xs) x zero = ground arith
count_at-append (y ∷ xs) x (suc d) = ground (arith, count_at-append xs x d)

contains-add_member :
    (c : ℕ) (xs : List ℕ) (d : ℕ) → contains (add_member c xs) d ≡ (contains xs d || c == d)
unfolding add_member contains
contains-add_member c xs d = ground (arith, nat_beq_iff c d)

-- The counts and the removed ids stand for the contexts that hold an id, `held` of it.
pub record Balanced (held : ℕ → ℕ) (i : Impl) : Type 0 where
  pub sized : length i.canonical_ref_counts ≡ i.max_canonical_id
  pub counted : (c : ℕ) → c < i.max_canonical_id → count_at c i.canonical_ref_counts ≡ held c
  pub dropped : (c : ℕ) → c < i.max_canonical_id → contains i.removed c ≡ (held c == 0)
  pub known : (c : ℕ) → 1 ≤ held c → c < i.max_canonical_id
  pub small : (c : ℕ) → held c < u32
  pub listed : (c : ℕ) → contains i.removed c ≡ true → c < i.max_canonical_id

module _ {held : ℕ → ℕ} {i : Impl} (b : Balanced held i) (c : ℕ) where
  pub drop_use-Balanced :
      (held' : ℕ → ℕ)
      → ((d : ℕ) → held d ≡ held' d + (if c == d then 1 else 0))
      → Balanced held' (drop_use c i)
  unfolding drop_use
  drop_use-Balanced held' e = record {
    sized = length-edit_at c _ i.canonical_ref_counts ∙ b.sized;
    counted = λ d lt. at d ∙ ground (arith, b.counted d lt, e d, b.small d);
    dropped = λ d lt.
        rw now
          (ground (arith, contains-add_member c i.removed d, b.dropped d lt, e d, nat_beq_iff c d));
    known = λ d h. b.known d (omega (arith, e d));
    small = λ d. omega (arith, e d, b.small d);
    listed = λ d h. kept (held' c == 0) d (
        subst (λ (n : ℕ). contains (if n == 0 then add_member c i.removed else i.removed) d ≡ true)
          now h);
  }
    where
      used : 1 ≤ held c
      used = ground (arith, e c)

      at :
          (d : ℕ)
          → count_at d (drop_use c i).canonical_ref_counts ≡ (
              if c == d
              then (count_at d i.canonical_ref_counts + u32 - 1) % u32
              else count_at d i.canonical_ref_counts)
      at d = count_at-edit_at c _ i.canonical_ref_counts d (omega (arith, b.sized, b.known c used))

      kept :
          (drop : Bool) (d : ℕ)
          → contains (if drop then add_member c i.removed else i.removed) d ≡ true
          → d < i.max_canonical_id
      kept false d h = b.listed d h
      kept true d h =
          ground
            (arith, contains-add_member c i.removed d, b.listed d, b.known c used, nat_beq_iff c d)

      now : count_at c (drop_use c i).canonical_ref_counts ≡ held' c
      now = at c ∙ ground (arith, b.counted c (b.known c used), e c, b.small c)

  pub add_use-Balanced :
      (held' : ℕ → ℕ)
      → c < i.max_canonical_id
      → ((d : ℕ) → held' d ≡ held d + (if c == d then 1 else 0))
      → ((d : ℕ) → held' d < u32)
      → Balanced held' (add_use c i)
  unfolding add_use
  add_use-Balanced held' lt e fits = record {
    sized = length-edit_at c _ i.canonical_ref_counts ∙ b.sized;
    counted = λ d h.
        count_at-edit_at c _ i.canonical_ref_counts d (omega (arith, b.sized))
        ∙ ground (arith, b.counted d h, e d, fits d);
    dropped =
        λ d h. contains-remove c i.removed d ∙ ground (arith, b.dropped d h, e d, nat_beq_iff c d);
    known = λ d h. ground (arith, b.known d, e d, nat_beq_iff c d);
    small = fits;
    listed = λ d h. b.listed d (ground (arith, contains-remove c i.removed d));
  }
