-- ===== src/MergedIndex/Invariant.antt =====
-- The reference counts of src/index/merged_index.cpp stand for the contexts that use a canonical id,
-- whatever is merged and removed.
use native.Mathlib.Nat.{add-zero}
use clice.Base.{
  u32, ℕ, ◌+◌, ◌%◌, ◌<◌, ◌≡◌, refl, sym, ◌∙◌, ap, subst, Bool, true, false, not, ◌&&◌, Option, none,
  some, List, [], ◌∷◌, ◌++◌, String, arith, length-append, contains, if◌then◌else◌, ◌==◌,
  nat_equality, string_equality, nat_beq_iff, Bool-cases, Option-cases, inl, inr, ◌⊎◌, lookup,
  insert, lookup-insert, NodupKeys, insert-NodupKeys, erase-NodupKeys, total, value, total-insert,
  total-erase,
}
use clice.MergedIndex.Data.{
  IncludeContext, HeaderContext, CompilationContext, IncludeLocation, FileIndex,
}
use clice.MergedIndex.{
  Impl, empty_impl, drop_use, add_use, add_canonical, merge_impl, set_compilation,
  add_compilation_context, add_include, add_header_context, merge_source, merge_header,
  drop_includes, remove_header, remove_compilation, remove_path,
}
use clice.MergedIndex.Counts.{Balanced, drop_use-Balanced, add_use-Balanced, count_at-append}

-- How many contexts use an id.
unfoldable pub include_uses : ℕ → List IncludeContext → ℕ
include_uses c [] = 0
include_uses c (x ∷ xs) = (if x.canonical_id == c then 1 else 0) + include_uses c xs

abbrev pub header_uses : ℕ → HeaderContext → ℕ
header_uses c h = include_uses c h.includes

abbrev pub compilation_uses : ℕ → CompilationContext → ℕ
compilation_uses c h = if h.canonical_id == c then 1 else 0

abbrev pub uses : Impl → ℕ → ℕ
uses i c =
    total (header_uses c) i.header_contexts + total (compilation_uses c) i.compilation_contexts

pub record WellFormed (i : Impl) : Type 0 where
  pub balanced : Balanced (uses i) i
  pub cached : (h c : ℕ) → lookup h i.canonical_cache ≡ some c → c < i.max_canonical_id
  pub headers : NodupKeys i.header_contexts
  pub compilations : NodupKeys i.compilation_contexts

include_uses-append :
    (c : ℕ) (xs : List IncludeContext) (x : IncludeContext)
    → include_uses c (xs ++ (x ∷ [])) ≡ include_uses c xs + (if x.canonical_id == c then 1 else 0)
unfolding include_uses
include_uses-append c [] x = omega arith
include_uses-append c (y ∷ xs) x = omega (arith, include_uses-append c xs x)

add_include_uses :
    (d : ℕ) (x : IncludeContext) (o : Option HeaderContext)
    → header_uses d (add_include x o)
      ≡ value (header_uses d) o + (if x.canonical_id == d then 1 else 0)
unfolding add_include include_uses
add_include_uses d x none = omega arith
add_include_uses d x (some old) = include_uses-append d old.includes x

-- What adding a context for the id `c` does.
record Adds (c : ℕ) (i j : Impl) : Type 0 where
  counts : j.canonical_ref_counts ≡ i.canonical_ref_counts
  removed : j.removed ≡ i.removed
  max : j.max_canonical_id ≡ i.max_canonical_id
  cache : j.canonical_cache ≡ i.canonical_cache
  used : (d : ℕ) → uses j d ≡ uses i d + (if c == d then 1 else 0)
  headers : NodupKeys i.header_contexts → NodupKeys j.header_contexts
  compilations : NodupKeys i.compilation_contexts → NodupKeys j.compilation_contexts

add_header_context-Adds :
    (path include_id c : ℕ) (i : Impl) → Adds c i (add_header_context path include_id c i)
unfolding add_header_context
add_header_context-Adds path include_id c i = record {
  counts = refl;
  removed = refl;
  max = refl;
  cache = refl;
  used = λ d. omega (
    arith,
    total-insert (header_uses d) path (added (lookup path i.header_contexts)) i.header_contexts,
    one d (lookup path i.header_contexts),
  );
  headers = insert-NodupKeys path _ i.header_contexts;
  compilations = λ h. h;
}
  where
    added : Option HeaderContext → HeaderContext
    added o = add_include (record { include_id = include_id; canonical_id = c }) o

    one :
        (d : ℕ) (o : Option HeaderContext)
        → header_uses d (added o) ≡ value (header_uses d) o + (if c == d then 1 else 0)
    one d o = add_include_uses d (record { include_id = include_id; canonical_id = c }) o

-- The path has no compilation context yet.
add_compilation_context-Adds :
    (path build_at : ℕ) (locations : List IncludeLocation) (c : ℕ) (i : Impl)
    → lookup path i.compilation_contexts ≡ none
    → Adds c i (add_compilation_context path build_at locations c i)
unfolding add_compilation_context set_compilation
add_compilation_context-Adds path build_at locations c i new = record {
  counts = refl;
  removed = refl;
  max = refl;
  cache = refl;
  used = λ d. rw new (
      omega (
        arith,
        total-insert (compilation_uses d) path (set_compilation c build_at locations none)
            i.compilation_contexts,
        ap (value (compilation_uses d)) new,
      ));
  headers = λ h. h;
  compilations = insert-NodupKeys path _ i.compilation_contexts;
}

same_counts-Balanced :
    (held : ℕ → ℕ) (i j : Impl)
    → j.canonical_ref_counts ≡ i.canonical_ref_counts
    → j.removed ≡ i.removed
    → j.max_canonical_id ≡ i.max_canonical_id
    → Balanced held i
    → Balanced held j
same_counts-Balanced held i j counts removed max b = record {
  sized = rw (counts, max) b.sized;
  counted = λ c lt. rw counts (b.counted c (subst (λ m. c < m) max lt));
  dropped = λ c lt. rw removed (b.dropped c (subst (λ m. c < m) max lt));
  known = λ c h. rw max (b.known c h);
  small = b.small;
  listed = λ c h. rw max (b.listed c (subst (λ r. contains r c ≡ true) removed h));
}

-- A fresh id, used once.
add_canonical-Balanced :
    (index : FileIndex) (held held' : ℕ → ℕ) (i : Impl)
    → Balanced held i
    → i.max_canonical_id + 1 < u32
    → ((d : ℕ) → held' d ≡ held d + (if i.max_canonical_id == d then 1 else 0))
    → Balanced held' (add_canonical index i)
unfolding add_canonical
add_canonical-Balanced index held held' i b fits e = record {
  sized = length-append i.canonical_ref_counts (1 ∷ []) ∙ omega (arith, b.sized);
  counted = λ d lt.
      count_at-append i.canonical_ref_counts 1 d
      ∙ rw b.sized (elim (order d lt) [
        | inl new ↦ rw new (sym (e d ∙ rw (free d new, new) refl))
        | inr (old, other) ↦ rw other (b.counted d old ∙ sym (e d ∙ rw (other, add-zero) refl))
      ]);
  dropped = λ d lt. elim (order d lt) [
    | inl new ↦ rw (e d, new, free d new) (unlisted d new)
    | inr (old, other) ↦ rw (e d, other, add-zero) (b.dropped d old)
  ];
  known = λ d h. ground (arith, b.known d, e d, nat_beq_iff i.max_canonical_id d);
  small = λ d. ground (arith, b.small d, b.known d, e d, nat_beq_iff i.max_canonical_id d);
  listed = λ d h. omega (arith, b.listed d h);
}
  where
    order :
        (d : ℕ)
        → d < (i.max_canonical_id + 1) % u32
        → ((i.max_canonical_id == d) ≡ true)
          ⊎ (d < i.max_canonical_id) × ((i.max_canonical_id == d) ≡ false)
    order d lt = elim (Bool-cases (i.max_canonical_id == d)) [
      | inl same ↦ inl same
      | inr other ↦ inr (ground (arith, other), other)
    ]

    free : (d : ℕ) → (i.max_canonical_id == d) ≡ true → held d ≡ 0
    free d same = ground (arith, b.known d)

    unlisted : (d : ℕ) → (i.max_canonical_id == d) ≡ true → contains i.removed d ≡ false
    unlisted d same = elim (Bool-cases (contains i.removed d)) [
      | inl listed ↦ absurd (ground (arith, b.listed d listed))
      | inr absent ↦ absent
    ]

drop_includes-Balanced :
    (xs : List IncludeContext) (held held' : ℕ → ℕ) (i : Impl)
    → Balanced held i
    → ((d : ℕ) → held d ≡ held' d + include_uses d xs)
    → Balanced held' (drop_includes xs i)
unfolding drop_includes include_uses
drop_includes-Balanced [] held held' i b e = record {
  sized = b.sized;
  counted = λ d lt. b.counted d lt ∙ omega (arith, e d);
  dropped = λ d lt. b.dropped d lt ∙ ap (λ (n : ℕ). n == 0) (omega (arith, e d));
  known = λ d h. b.known d (omega (arith, e d));
  small = λ d. omega (arith, e d, b.small d);
  listed = b.listed;
}
drop_includes-Balanced (x ∷ xs) held held' i b e =
    drop_includes-Balanced xs (λ d. held' d + include_uses d xs) held' (drop_use x.canonical_id i)
      (drop_use-Balanced b x.canonical_id _ (λ d. omega (arith, e d))) (λ d. refl)

-- What dropping uses leaves alone.
record Same (i j : Impl) : Type 0 where
  headers : j.header_contexts ≡ i.header_contexts
  compilations : j.compilation_contexts ≡ i.compilation_contexts
  cache : j.canonical_cache ≡ i.canonical_cache
  max : j.max_canonical_id ≡ i.max_canonical_id

drop_includes-Same : (xs : List IncludeContext) (i : Impl) → Same i (drop_includes xs i)
unfolding drop_includes drop_use
drop_includes-Same [] i = record { headers = refl; compilations = refl; cache = refl; max = refl }
drop_includes-Same (x ∷ xs) i =
    let rest = drop_includes-Same xs (drop_use x.canonical_id i) in
    record {
      headers = rest.headers;
      compilations = rest.compilations;
      cache = rest.cache;
      max = rest.max;
    }

cleared : (j : Impl) → WellFormed j → WellFormed (record j { occurrences_cache = [] })
cleared j v = record {
  balanced = same_counts-Balanced _ j _ refl refl refl v.balanced;
  cached = v.cached;
  headers = v.headers;
  compilations = v.compilations;
}

new_content :
    (j : Impl) (content : String) → WellFormed j → WellFormed (record j { content = content })
new_content j content v = record {
  balanced = same_counts-Balanced _ j _ refl refl refl v.balanced;
  cached = v.cached;
  headers = v.headers;
  compilations = v.compilations;
}

module _ (path : ℕ) (i : Impl) (w : WellFormed i) where
  remove_header-WellFormed : WellFormed (remove_header path i)
  unfolding remove_header
  remove_header-WellFormed = elim (Option-cases (lookup path i.header_contexts)) [
    | inl missing ↦ rw (missing, remove_header) w
    | inr (context, found) ↦
        let s = drop_includes-Same context.includes i in
        rw (found, remove_header)
          (record {
            balanced = same_counts-Balanced _ (drop_includes context.includes i) _ refl refl refl (
                drop_includes-Balanced context.includes (uses i) _ i w.balanced (λ d.
                  rw (s.headers, s.compilations)
                    (omega (
                      arith,
                      total-erase (header_uses d) path i.header_contexts w.headers,
                      ap (value (header_uses d)) found,
                    ))));
            cached = λ h c e. rw s.max (w.cached h c (subst (λ m. lookup h m ≡ some c) s.cache e));
            headers = rw s.headers (erase-NodupKeys path i.header_contexts w.headers);
            compilations = rw s.compilations w.compilations;
          })
  ]

  remove_compilation-WellFormed : WellFormed (remove_compilation path i)
  unfolding remove_compilation drop_use
  remove_compilation-WellFormed = elim (Option-cases (lookup path i.compilation_contexts)) [
    | inl missing ↦ rw (missing, remove_compilation) w
    | inr (context, found) ↦
        rw (found, remove_compilation)
          (record {
            balanced = same_counts-Balanced _ (drop_use context.canonical_id i) _ refl refl refl (
                drop_use-Balanced w.balanced context.canonical_id _ (λ d. omega (
                  arith,
                  total-erase (compilation_uses d) path i.compilation_contexts w.compilations,
                  ap (value (compilation_uses d)) found,
                )));
            cached = w.cached;
            headers = w.headers;
            compilations = erase-NodupKeys path i.compilation_contexts w.compilations;
          })
  ]

-- `remove` keeps the counts: every canonical id is counted once for each context that uses it, and it
-- is in the removed set exactly when no context uses it.
pub remove_path-WellFormed : (path : ℕ) (i : Impl) → WellFormed i → WellFormed (remove_path path i)
unfolding remove_path
remove_path-WellFormed path i w =
    cleared _ (
      remove_compilation-WellFormed path (remove_header path i) (remove_header-WellFormed path i w))

-- An index that is not in the cache.
add_canonical-WellFormed :
    (hash : ℕ) (index : FileIndex) (i j : Impl)
    → WellFormed i
    → i.max_canonical_id + 1 < u32
    → Adds i.max_canonical_id
        (record i { canonical_cache = insert hash i.max_canonical_id i.canonical_cache })
        j
    → WellFormed (add_canonical index j)
unfolding add_canonical
add_canonical-WellFormed hash index i j w fits a = record {
  balanced = same_counts-Balanced (uses j) (add_canonical index j) _ refl refl refl (
      add_canonical-Balanced index (uses i) (uses j) j
        (same_counts-Balanced (uses i) i j a.counts a.removed a.max w.balanced) (rw a.max fits)
        (λ d. rw a.max (a.used d)));
  cached = λ h d e. rw a.max (
      cached_below h d (
        sym (lookup-insert hash h i.max_canonical_id i.canonical_cache)
        ∙ subst (λ m. lookup h m ≡ some d) a.cache e));
  headers = a.headers w.headers;
  compilations = a.compilations w.compilations;
}
  where
    pick : ℕ → Bool → Option ℕ
    pick h b = if b then some i.max_canonical_id else lookup h i.canonical_cache

    new_id : (d : ℕ) → some i.max_canonical_id ≡ some d → i.max_canonical_id ≡ d
    new_id d e = cc

    cached_below :
        (h d : ℕ)
        → (if hash == h then some i.max_canonical_id else lookup h i.canonical_cache) ≡ some d
        → d < (i.max_canonical_id + 1) % u32
    cached_below h d e = elim (Bool-cases (hash == h)) [
      | inl same ↦ omega (arith, fits, new_id d (sym (ap (pick h) same) ∙ e))
      | inr other ↦ omega (arith, fits, w.cached h d (sym (ap (pick h) other) ∙ e))
    ]

merge_impl-WellFormed :
    (hash : ℕ) (index : FileIndex) (add_context : ℕ → Impl → Impl) (i : Impl)
    → WellFormed i
    → i.max_canonical_id + 1 < u32
    → ((c : ℕ) → uses i c + 1 < u32)
    → ((c : ℕ) (j : Impl)
        → j.compilation_contexts ≡ i.compilation_contexts
        → Adds c j (add_context c j))
    → WellFormed (merge_impl hash index add_context i)
unfolding merge_impl add_use add_canonical
merge_impl-WellFormed hash index add_context i w fits room adds =
    elim (Option-cases (lookup hash i.canonical_cache)) [
      | inr (c, hit) ↦
          let a = adds c i refl in
          let lt = w.cached hash c hit in
          rw (hit, merge_impl)
            (record {
              balanced = same_counts-Balanced _ (add_use c (add_context c i)) _ refl refl refl (
                  add_use-Balanced
                    (same_counts-Balanced (uses i) i (add_context c i) a.counts a.removed a.max
                      w.balanced)
                    c _ (rw a.max lt) a.used (λ d. ground (arith, a.used d, room d)));
              cached =
                  λ h d e. rw a.max (w.cached h d (subst (λ m. lookup h m ≡ some d) a.cache e));
              headers = a.headers w.headers;
              compilations = a.compilations w.compilations;
            })
      | inl miss ↦
          rw (miss, merge_impl)
            (add_canonical-WellFormed hash index i _ w fits (adds i.max_canonical_id _ refl))
    ]

-- `merge` with a header context keeps the index well-formed, where no 32-bit counter is about to
-- overflow: every canonical id is counted once for each context that uses it and is in the removed
-- set exactly when no context uses it.
pub merge_header-WellFormed :
    (path include_id hash : ℕ) (index : FileIndex) (content : String) (i : Impl)
    → WellFormed i
    → i.max_canonical_id + 1 < u32
    → ((c : ℕ) → uses i c + 1 < u32)
    → WellFormed (merge_header path include_id hash index content i)
unfolding merge_header
merge_header-WellFormed path include_id hash index content i w fits room = cleared _ (
    filled ((i.content == "") && not (content == "")) (λ j v same.
      merge_impl-WellFormed hash index (add_header_context path include_id) j v (rw same.max fits)
        (λ c. rw (same.headers, same.compilations) (room c))
        (λ c k e. add_header_context-Adds path include_id c k)))
  where
    filled :
        (b : Bool)
        → ((j : Impl)
            → WellFormed j
            → Same i j
            → WellFormed (merge_impl hash index (add_header_context path include_id) j))
        → WellFormed (
            merge_impl hash index
              (add_header_context path include_id)
              (if b then record i { content = content } else i))
    filled false go =
        go i w (record { headers = refl; compilations = refl; cache = refl; max = refl })
    filled true go =
        go (record i { content = content }) (new_content i content w)
          (record { headers = refl; compilations = refl; cache = refl; max = refl })

-- `merge` with a compilation context keeps the index well-formed, where the path has no compilation
-- context yet and no 32-bit counter is about to overflow.
pub merge_source-WellFormed :
    (path build_at : ℕ) (locations : List IncludeLocation) (hash : ℕ) (index : FileIndex)
    (content : String) (i : Impl)
    → WellFormed i
    → lookup path i.compilation_contexts ≡ none
    → i.max_canonical_id + 1 < u32
    → ((c : ℕ) → uses i c + 1 < u32)
    → WellFormed (merge_source path build_at locations hash index content i)
unfolding merge_source
merge_source-WellFormed path build_at locations hash index content i w new fits room = cleared _ (
    merge_impl-WellFormed hash index (add_compilation_context path build_at locations)
      (record i { content = content }) (new_content i content w) fits room
      (λ c k e. add_compilation_context-Adds path build_at locations c k (rw e new)))

pub empty_impl-WellFormed : WellFormed empty_impl
unfolding empty_impl total contains lookup
empty_impl-WellFormed = record {
  balanced = record {
    sized = refl;
    counted = λ c lt. absurd (omega arith);
    dropped = λ c lt. absurd (omega arith);
    known = λ c h. absurd (omega arith);
    small = λ c. omega arith;
    listed = λ c h. absurd (ground arith);
  };
  cached = λ h c e. absurd (ground arith);
  headers = tt;
  compilations = tt;
}
