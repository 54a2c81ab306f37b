-- ===== src/ProjectIndex/Interned.antt =====
-- Interned paths and their numbers stand for each other (src/support/path_pool.h).
use clice.Base.{
  u32, ℕ, zero, suc, ◌+◌, ◌%◌, ◌<◌, ◌≡◌, ◌↔◌, refl, sym, ◌∙◌, ap, subst, Bool, true, false, none,
  some, List, [], ◌∷◌, ◌++◌, lookup, insert, lookup-insert, length, length-append, if◌then◌else◌,
  ◌==◌, nat_equality, nat_beq_iff, arith, Bool-cases, Option-cases, inl, inr, ◌⊎◌,
}
use clice.ProjectIndex.{
  PathPool, path_equality, same_path, same_path_iff, normalize, intern, resolve,
}

pub normalize_idem : (p : List ℕ) → normalize (normalize p) ≡ normalize p
unfolding normalize
normalize_idem [] = refl
normalize_idem (c ∷ cs) = ground (arith, normalize_idem cs)

resolve_below : (ps : List (List ℕ)) (i : ℕ) (p : List ℕ) → resolve i ps ≡ some p → i < length ps
unfolding resolve
resolve_below [] i p h = absurd (ground arith)
resolve_below (q ∷ ps) zero p h = omega arith
resolve_below (q ∷ ps) (suc i) p h = omega (arith, resolve_below ps i p h)

resolve-append :
    (ps : List (List ℕ)) (q : List ℕ) (i : ℕ)
    → resolve i (ps ++ (q ∷ [])) ≡ (if length ps == i then some q else resolve i ps)
unfolding resolve
resolve-append [] q zero = ground arith
resolve-append [] q (suc i) = ground arith
resolve-append (p ∷ ps) q zero = ground arith
resolve-append (p ∷ ps) q (suc i) = ground (arith, resolve-append ps q i)

-- The cache and the vector are inverse to each other.
pub record Interned (pool : PathPool) : Type 0 where
  pub cached : (p : List ℕ) (i : ℕ) → lookup p pool.cache ≡ some i → resolve i pool.paths ≡ some p
  pub stored : (i : ℕ) (p : List ℕ) → resolve i pool.paths ≡ some p → lookup p pool.cache ≡ some i

-- What interning a path does.
pub record Interns (path : List ℕ) (pool : PathPool) (r : PathPool × ℕ) : Type 0 where
  pub keeps : Interned r.0
  pub found : resolve r.1 r.0.paths ≡ some (normalize path)
  pub stable : (i : ℕ) (p : List ℕ) → resolve i pool.paths ≡ some p → resolve i r.0.paths ≡ some p
  pub cached : lookup (normalize path) r.0.cache ≡ some r.1
  pub grows : length r.0.paths < length pool.paths + 2

same_some {ℓ} : {A : Type ℓ} {a b : A} → some a ≡ some b → a ≡ b
same_some h = cc

module _ (path : List ℕ) (pool : PathPool) (v : Interned pool)
    (fits : length pool.paths < u32) where
  abbrev id : ℕ
  id = length pool.paths % u32

  id_is : length pool.paths ≡ id
  id_is = omega (arith, fits)

  abbrev p : List ℕ
  p = normalize path

  abbrev longer : PathPool
  longer = record { paths = pool.paths ++ (p ∷ []); cache = insert p id pool.cache }

  at : (i : ℕ) → resolve i longer.paths ≡ (if id == i then some p else resolve i pool.paths)
  at i =
      resolve-append pool.paths p i
      ∙ ap (λ (k : ℕ). if k == i then some p else resolve i pool.paths) id_is

  not_yet : (i : ℕ) (q : List ℕ) → resolve i pool.paths ≡ some q → (id == i) ≡ false
  not_yet i q h = ground (arith, resolve_below pool.paths i q h, id_is)

  module _ (new : lookup p pool.cache ≡ none) where
    in_cache :
        (q : List ℕ) (b : Bool)
        → same_path p q ≡ b
        → lookup q longer.cache ≡ (if b then some id else lookup q pool.cache)
    in_cache q b e = lookup-insert p q id pool.cache ∙ rw e refl

    in_paths :
        (i : ℕ) (b : Bool)
        → (id == i) ≡ b
        → resolve i longer.paths ≡ (if b then some p else resolve i pool.paths)
    in_paths i b e = at i ∙ rw e refl

    apart : (q : List ℕ) (i : ℕ) → lookup q pool.cache ≡ some i → same_path p q ≡ true → ⊥
    apart q i h same =
        clash (sym (subst (λ x. lookup x pool.cache ≡ none) ((same_path_iff p q).0 same) new) ∙ h)
      where
        clash : none ≡ some i → ⊥
        clash e = absurd (ground arith)

    longer-Interned : Interned longer
    longer-Interned = record {
      cached = λ q i h. elim (Bool-cases (same_path p q)) [
        | inl same ↦
            in_paths i true ((nat_beq_iff id i).1 (same_some (sym (in_cache q true same) ∙ h)))
            ∙ ap some ((same_path_iff p q).0 same)
        | inr other ↦
            let old = v.cached q i (sym (in_cache q false other) ∙ h) in
            in_paths i false (not_yet i q old) ∙ old
      ];
      stored = λ i q h. elim (Bool-cases (id == i)) [
        | inl same ↦
            in_cache q true ((same_path_iff p q).1 (same_some (sym (in_paths i true same) ∙ h)))
            ∙ ap some ((nat_beq_iff id i).0 same)
        | inr other ↦
            let old = v.stored i q (sym (in_paths i false other) ∙ h) in
            elim (Bool-cases (same_path p q)) [
              | inl same ↦ absurd (apart q i old same)
              | inr differs ↦ in_cache q false differs ∙ old
            ]
      ];
    }

    longer-Interns : Interns path pool (longer, id)
    longer-Interns = record {
      keeps = longer-Interned;
      found = in_paths id true ((nat_beq_iff id id).1 refl);
      stable = λ i q h. in_paths i false (not_yet i q h) ∙ h;
      cached = in_cache p true ((same_path_iff p p).1 refl);
      grows = omega (arith, length-append pool.paths (p ∷ []));
    }

  -- Interning a path in a pool of fewer than 2^32 paths, whose cache and vector are inverse to each
  -- other, keeps them so, answers a number that resolves to the normalized path and that the cache
  -- has for it, and changes the path of no other number.
  pub intern-Interns : Interns path pool (intern path pool)
  unfolding intern
  intern-Interns = elim (Option-cases (lookup p pool.cache)) [
    | inl new ↦ rw (new, intern) (longer-Interns new)
    | inr (i, old) ↦
        rw (old, intern)
          (record {
            keeps = v;
            found = v.cached p i old;
            stable = λ j q h. h;
            cached = old;
            grows = omega arith;
          })
  ]

-- Two bytes are the same, or each of them is a slash or a backslash.
abbrev pub IsSlash : ℕ → Type 0
IsSlash c = (c ≡ b'/') ⊎ (c ≡ b'\\')

abbrev pub SameByte : ℕ → ℕ → Type 0
SameByte c d = (c ≡ d) ⊎ (IsSlash c × IsSlash d)

-- Paths of the same bytes, up to the kind of the slashes.
abbrev pub SamePath : List ℕ → List ℕ → Type 0
SamePath [] [] = Unit
SamePath [] (d ∷ ds) = ⊥
SamePath (c ∷ cs) [] = ⊥
SamePath (c ∷ cs) (d ∷ ds) = SameByte c d × SamePath cs ds

abbrev slash_of : ℕ → ℕ
slash_of c = if c == b'\\' then b'/' else c

same_head : (c d : ℕ) → (slash_of c ≡ slash_of d) → SameByte c d
same_head c d e = ground (arith, e)

head_same : (c d : ℕ) → SameByte c d → slash_of c ≡ slash_of d
head_same c d h = ground (arith, h)

cons_parts : (c d : ℕ) (cs ds : List ℕ) → c ∷ cs ≡ d ∷ ds → (c ≡ d) × (cs ≡ ds)
cons_parts c d cs ds e = (cc, cc)

normalize-SamePath : (a b : List ℕ) → (normalize a ≡ normalize b) ↔ SamePath a b
unfolding normalize
normalize-SamePath [] [] = (λ e. tt, λ s. refl)
normalize-SamePath [] (d ∷ ds) = (λ e. absurd (ground arith), λ s. absurd s)
normalize-SamePath (c ∷ cs) [] = (λ e. absurd (ground arith), λ s. absurd s)
normalize-SamePath (c ∷ cs) (d ∷ ds) = (
  λ e.
      let (first, rest) = cons_parts (slash_of c) (slash_of d) (normalize cs) (normalize ds) e in
      (same_head c d first, (normalize-SamePath cs ds).0 rest),
  λ s.
      ap (λ x. x ∷ normalize cs) (head_same c d s.0)
      ∙ ap (λ xs. slash_of d ∷ xs) ((normalize-SamePath cs ds).1 s.1),
)

-- Where a path is interned right after another, in a pool with room for both whose cache and vector
-- are inverse to each other, the two have the same number exactly when they have the same bytes, a
-- slash and a backslash taken for the same.
pub intern-same :
    (a b : List ℕ) (pool : PathPool)
    → Interned pool
    → length pool.paths + 1 < u32
    → ((intern a pool).1 ≡ (intern b (intern a pool).0).1) ↔ SamePath a b
intern-same a b pool v fits =
    let first = intern-Interns a pool v (omega (arith, fits)) in
    let second =
      intern-Interns b (intern a pool).0 first.keeps (omega (arith, first.grows, fits)) in
    (
      λ e. (normalize-SamePath a b).0 (
          same_some (
            sym (second.stable (intern a pool).1 (normalize a) first.found)
            ∙ (ap (λ i. resolve i (intern b (intern a pool).0).0.paths) e ∙ second.found))),
      λ s.
          let e = (normalize-SamePath a b).1 s in
          same_some (
            sym (
              second.keeps.stored (intern a pool).1 (normalize a)
                (second.stable (intern a pool).1 (normalize a) first.found))
            ∙ (ap (λ q. lookup q (intern b (intern a pool).0).0.cache) e ∙ second.cached)),
    )
