-- ===== src/MergedIndex/Stored/RoundTrip.antt =====
-- Writing and reading a merged index (src/index/merged_index.cpp) restores its contexts and counts.
use clice.Base.{
  u32, ℕ, zero, suc, ◌+◌, ◌%◌, ◌<◌, ◌≡◌, refl, sym, ◌∙◌, ap, Option, none, some, List, [], ◌∷◌,
  Table, lookup, lookup-insert, length, total, arith, if◌then◌else◌, ◌==◌, nat_equality, Equality,
  Option-cases, subst, inl, inr, Bool, true, false,
}
use clice.MergedIndex.{Impl, edit_at, count_at}
use clice.MergedIndex.Data.{IncludeContext, HeaderContext, CompilationContext}
use clice.MergedIndex.Counts.{length-edit_at}
use clice.MergedIndex.Invariant.{WellFormed, uses, include_uses, header_uses, compilation_uses}
use clice.MergedIndex.Stored.{
  serialize, emplace, emplace_all, zeros, bump_count, bump_includes, bump_headers,
  bump_compilations, load_in_memory,
}

abbrev first {κ} : {V : Type κ} → Option V → Option V → Option V
first none p = p
first (some v) p = some v

first-none {κ} : {V : Type κ} (o : Option V) → o ≡ first o none
first-none none = refl
first-none (some v) = refl

module _ {ℓ κ} {K : Type ℓ} {V : Type κ} ⦃e : Equality K⦄ where
  emplace-lookup :
      (k j : K) (v : V) (m : Table K V)
      → lookup j (emplace k v m) ≡ first (lookup j m) (if k == j then some v else none)
  unfolding emplace
  emplace-lookup k j v m = elim (Option-cases (lookup k m)) [
    | inl new ↦ rw (new, emplace) (lookup-insert k j v m ∙ added new (k == j) refl)
    | inr (old, there) ↦ rw (there, emplace) (kept old there (k == j) refl)
  ]
    where
      added :
          lookup k m ≡ none
          → (b : Bool) → (k == j) ≡ b
          → (if b then some v else lookup j m) ≡ first (lookup j m) (if b then some v else none)
      added new true same = sym (
          ap (λ o. first o (some v)) (subst (λ x. lookup x m ≡ none) ((e.test_iff k j).0 same) new))
      added new false other = first-none (lookup j m)

      kept :
          (old : V)
          → lookup k m ≡ some old
          → (b : Bool) → (k == j) ≡ b
          → lookup j m ≡ first (lookup j m) (if b then some v else none)
      kept old there true same =
          let here = subst (λ x. lookup x m ≡ some old) ((e.test_iff k j).0 same) there in
          here ∙ sym (ap (λ o. first o (some v)) here)
      kept old there false other = first-none (lookup j m)

  emplace_all-lookup :
      (xs m : Table K V) (j : K) → lookup j (emplace_all xs m) ≡ first (lookup j m) (lookup j xs)
  unfolding emplace_all lookup
  emplace_all-lookup [] m j = first-none (lookup j m)
  emplace_all-lookup ((k, v) ∷ xs) m j =
      emplace_all-lookup xs (emplace k v m) j
      ∙ (ap (λ o. first o (lookup j xs)) (emplace-lookup k j v m) ∙ joined (k == j) (lookup j m))
    where
      joined :
          (b : Bool) (o : Option V)
          → first (first o (if b then some v else none)) (lookup j xs)
            ≡ first o (if b then some v else lookup j xs)
      joined b (some w) = refl
      joined true none = refl
      joined false none = refl

  loaded : (xs : Table K V) (j : K) → lookup j (emplace_all xs []) ≡ lookup j xs
  unfolding lookup
  loaded xs j = emplace_all-lookup xs [] j

count_at-edit_below :
    (d : ℕ) (f : ℕ → ℕ) (xs : List ℕ) (c : ℕ)
    → c < length xs
    → count_at c (edit_at d f xs) ≡ (if d == c then f (count_at c xs) else count_at c xs)
unfolding count_at edit_at
count_at-edit_below d f [] c h = absurd (omega arith)
count_at-edit_below zero f (x ∷ xs) zero h = refl
count_at-edit_below zero f (x ∷ xs) (suc c) h = ground arith
count_at-edit_below (suc d) f (x ∷ xs) zero h = ground arith
count_at-edit_below (suc d) f (x ∷ xs) (suc c) h =
    ground (arith, count_at-edit_below d f xs c (omega arith))

-- `next` counts `n` more uses of `c` than `counts` does.
record Bumps (c n : ℕ) (counts next : List ℕ) : Type 0 where
  same_length : length next ≡ length counts
  counted : count_at c next ≡ (count_at c counts + n) % u32

module _ (c : ℕ) where
  bump_count-Bumps :
      (d : ℕ) (counts : List ℕ)
      → c < length counts
      → count_at c counts < u32
      → Bumps c (if d == c then 1 else 0) counts (bump_count d counts)
  unfolding bump_count
  bump_count-Bumps d counts h small = record {
    same_length = length-edit_at d _ counts;
    counted = ground (arith, count_at-edit_below d (λ n. (n + 1) % u32) counts c h, small);
  }

  then_Bumps :
      (m n : ℕ) (counts next last : List ℕ)
      → Bumps c m counts next
      → Bumps c n next last
      → Bumps c (m + n) counts last
  then_Bumps m n counts next last a b = record {
    same_length = b.same_length ∙ a.same_length;
    counted = omega (arith, a.counted, b.counted);
  }

  no_Bumps : (counts : List ℕ) → count_at c counts < u32 → Bumps c 0 counts counts
  no_Bumps counts small = record { same_length = refl; counted = omega (arith, small) }

  bump_includes-Bumps :
      (xs : List IncludeContext) (counts : List ℕ)
      → c < length counts
      → count_at c counts < u32
      → Bumps c (include_uses c xs) counts (bump_includes xs counts)
  unfolding bump_includes include_uses
  bump_includes-Bumps [] counts h small = no_Bumps counts small
  bump_includes-Bumps (x ∷ xs) counts h small =
      let a = bump_count-Bumps x.canonical_id counts h small in
      then_Bumps _ _ _ _ _ a (
        bump_includes-Bumps xs (bump_count x.canonical_id counts) (omega (arith, a.same_length, h))
          (omega (arith, a.counted)))

  bump_headers-Bumps :
      (m : Table ℕ HeaderContext) (counts : List ℕ)
      → c < length counts
      → count_at c counts < u32
      → Bumps c (total (header_uses c) m) counts (bump_headers m counts)
  unfolding bump_headers total
  bump_headers-Bumps [] counts h small = no_Bumps counts small
  bump_headers-Bumps ((path, x) ∷ m) counts h small =
      let a = bump_includes-Bumps x.includes counts h small in
      then_Bumps _ _ _ _ _ a (
        bump_headers-Bumps m (bump_includes x.includes counts) (omega (arith, a.same_length, h))
          (omega (arith, a.counted)))

  bump_compilations-Bumps :
      (m : Table ℕ CompilationContext) (counts : List ℕ)
      → c < length counts
      → count_at c counts < u32
      → Bumps c (total (compilation_uses c) m) counts (bump_compilations m counts)
  unfolding bump_compilations total
  bump_compilations-Bumps [] counts h small = no_Bumps counts small
  bump_compilations-Bumps ((path, x) ∷ m) counts h small =
      let a = bump_count-Bumps x.canonical_id counts h small in
      then_Bumps _ _ _ _ _ a (
        bump_compilations-Bumps m (bump_count x.canonical_id counts)
          (omega (arith, a.same_length, h)) (omega (arith, a.counted)))

length-zeros : (n : ℕ) → length (zeros n) ≡ n
unfolding zeros
length-zeros zero = refl
length-zeros (suc n) = ap suc (length-zeros n)

zeros-count_at : (n c : ℕ) → count_at c (zeros n) ≡ 0
unfolding zeros count_at
zeros-count_at zero c = refl
zeros-count_at (suc n) zero = refl
zeros-count_at (suc n) (suc c) = zeros-count_at n c

-- What is the same after a round trip.
pub record Restores (i r : Impl) : Type 0 where
  pub counts :
      (c : ℕ)
      → c < i.max_canonical_id
      → count_at c r.canonical_ref_counts ≡ count_at c i.canonical_ref_counts
  pub headers : (p : ℕ) → lookup p r.header_contexts ≡ lookup p i.header_contexts
  pub compilations : (p : ℕ) → lookup p r.compilation_contexts ≡ lookup p i.compilation_contexts
  pub cache : (h : ℕ) → lookup h r.canonical_cache ≡ lookup h i.canonical_cache
  pub max : r.max_canonical_id ≡ i.max_canonical_id
  pub removed : r.removed ≡ i.removed
  pub content : r.content ≡ i.content

module _ (i : Impl) (w : WellFormed i) where
  recounted : List ℕ
  recounted =
      bump_compilations i.compilation_contexts
        (bump_headers i.header_contexts (zeros i.max_canonical_id))

  start : (c : ℕ) → c < i.max_canonical_id → c < length (zeros i.max_canonical_id)
  start c h = omega (arith, length-zeros i.max_canonical_id, h)

  recounted-Bumps :
      (c : ℕ) → c < i.max_canonical_id → Bumps c (uses i c) (zeros i.max_canonical_id) recounted
  unfolding recounted
  recounted-Bumps c h =
      let a =
        bump_headers-Bumps c i.header_contexts (zeros i.max_canonical_id) (start c h)
          (omega (arith, zeros-count_at i.max_canonical_id c)) in
      then_Bumps c _ _ _ _ _ a (
        bump_compilations-Bumps c i.compilation_contexts
          (bump_headers i.header_contexts (zeros i.max_canonical_id))
          (omega (arith, a.same_length, start c h)) (omega (arith, a.counted)))

  -- An index that is well-formed, written and read back has the same contexts, cached ids, removed ids
  -- and content, and counts each allocated id as often as before, although the counts are not written.
  pub load_in_memory-serialize : Restores i (load_in_memory (serialize i))
  unfolding load_in_memory serialize recounted
  load_in_memory-serialize = record {
    counts = λ c h.
        (recounted-Bumps c h).counted
        ∙ omega (
          arith,
          zeros-count_at i.max_canonical_id c,
          w.balanced.counted c h,
          w.balanced.small c,
        );
    headers = loaded i.header_contexts;
    compilations = loaded i.compilation_contexts;
    cache = loaded i.canonical_cache;
    max = refl;
    removed = refl;
    content = refl;
  }
