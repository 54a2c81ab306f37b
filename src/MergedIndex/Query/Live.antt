-- ===== src/MergedIndex/Query/Live.antt =====
-- What the queries of src/index/merged_index.cpp report.
use clice.Base.{
  ℕ, ◌≤◌, ◌<◌, ◌≡◌, refl, sym, ◌∙◌, ap, subst, Bool, true, false, not, ◌&&◌, ◌||◌, Option, none,
  some, List, [], ◌∷◌, arith, Table, lookup, contains, if◌then◌else◌, ltb, ◌==◌, Equality, eq_self,
  nat_equality, nat_beq_iff, Bool-cases, Option-cases, inl, inr, contains_cases, NodupKeys,
}
use clice.MergedIndex.{Impl}
use clice.MergedIndex.Data.{Relation, relation_equality, IncludeLocation, CompilationContext}
use clice.MergedIndex.Invariant.{WellFormed, uses}
use clice.MergedIndex.Query.{
  is_empty, subtract, is_skipped, walk_relations, lookup_relations, locations_changed, need_update,
}

-- The entry of a relation, if it is not skipped.
unfoldable pub is_live : List ℕ → Option (List ℕ) → Bool
unfolding is_skipped
is_live removed none = false
is_live removed (some bitmap) = not (is_skipped removed bitmap)

-- What a callback sees of a list until it says stop.
unfoldable pub until {ℓ} : {A : Type ℓ} → (A → Bool) → List A → List A
until callback [] = []
until callback (x ∷ xs) = x ∷ (if callback x then until callback xs else [])

-- A path that is gone, or newer than the build.
unfoldable pub changed : (ℕ → Option ℕ) → ℕ → ℕ → Bool
changed status build_at path = elim (status path) [ none ↦ true | some time ↦ ltb build_at time ]

abbrev always : Relation → Bool
always r = true

walk_relations-until :
    (kind : ℕ) (callback : Relation → Bool) (removed : List ℕ) (m : Table Relation (List ℕ))
    → walk_relations kind callback removed m ≡ until callback (walk_relations kind always removed m)
unfolding walk_relations until
walk_relations-until kind callback removed [] = refl
walk_relations-until kind callback removed ((r, bitmap) ∷ m) =
    elim (Bool-cases ((r.kind == kind) && not (is_skipped removed bitmap))) [
      | inl on ↦ rw (on, walk_relations-until kind callback removed m) refl
      | inr off ↦ rw (off, walk_relations-until kind callback removed m) refl
    ]

-- The keys whose entry passes a test.
module _ {ℓ κ} {K : Type ℓ} {V : Type κ} ⦃e : Equality K⦄ (p : K → V → Bool) where
  unfoldable select : Table K V → List K
  select [] = []
  select ((k, v) ∷ m) = if p k v then k ∷ select m else select m

  abbrev passes : K → Option V → Bool
  passes k none = false
  passes k (some v) = p k v

  contains-select :
      (m : Table K V) (k : K) → NodupKeys m → contains (select m) k ≡ passes k (lookup k m)
  unfolding select contains lookup
  contains-select [] k h = refl
  contains-select ((j, v) ∷ m) k h = elim (Bool-cases (j == k)) [
    | inl same ↦
        rw (same, ← (e.test_iff j k).0 same)
          (at_head (p j v) (contains-select m j h.1 ∙ ap (passes j) h.0))
    | inr other ↦ rw other (past_head (p j v) other ∙ contains-select m k h.1)
  ]
    where
      at_head :
          (b : Bool)
          → contains (select m) j ≡ false
          → contains (if b then j ∷ select m else select m) j ≡ b
      at_head true missing = rw (eq_self j) refl
      at_head false missing = missing

      past_head :
          (b : Bool)
          → (j == k) ≡ false
          → contains (if b then j ∷ select m else select m) k ≡ contains (select m) k
      past_head true other = rw other refl
      past_head false other = refl

-- The relations of a kind that are not skipped.
abbrev picks : ℕ → List ℕ → Relation → List ℕ → Bool
picks kind removed r bitmap = (r.kind == kind) && not (is_skipped removed bitmap)

walk_relations-select :
    (kind : ℕ) (removed : List ℕ) (m : Table Relation (List ℕ))
    → walk_relations kind always removed m ≡ select (picks kind removed) m
unfolding walk_relations select
walk_relations-select kind removed [] = refl
walk_relations-select kind removed ((r, bitmap) ∷ m) =
    rw (walk_relations-select kind removed m) refl

-- `lookup` of a symbol whose relations stand in the table once each passes relations to the callback
-- until it says stop; the sequence that it goes through has a relation exactly when the relation
-- stands in the table with the kind that was asked and is not skipped.
pub lookup_relations-until :
    (symbol kind : ℕ) (callback : Relation → Bool) (i : Impl) (m : Table Relation (List ℕ))
    → lookup symbol i.relations ≡ some m
    → NodupKeys m
    → (rs : List Relation) × (lookup_relations symbol kind callback i ≡ until callback rs)
      × ((r : Relation) → contains rs r ≡ ((r.kind == kind) && is_live i.removed (lookup r m)))
unfolding is_live lookup_relations until
lookup_relations-until symbol kind callback i m here nodup = (
  walk_relations kind always i.removed m,
  rw (here, lookup_relations) (walk_relations-until kind callback i.removed m),
  λ r.
      ap (λ rs. contains rs r) (walk_relations-select kind i.removed m)
      ∙ (contains-select (picks kind i.removed) m r nodup ∙ pass r (lookup r m)),
)
  where
    pass :
        (r : Relation) (o : Option (List ℕ))
        → passes (picks kind i.removed) r o ≡ ((r.kind == kind) && is_live i.removed o)
    pass r none = ground arith
    pass r (some bitmap) = refl

contains-subtract :
    (xs removed : List ℕ) (c : ℕ)
    → contains (subtract xs removed) c ≡ (contains xs c && not (contains removed c))
unfolding contains subtract
contains-subtract [] removed c = refl
contains-subtract (x ∷ xs) removed c =
    ground (arith, contains-subtract xs removed c, nat_beq_iff x c)

is_empty-contains : (xs : List ℕ) (c : ℕ) → is_empty xs ≡ true → contains xs c ≡ false
unfolding is_empty contains
is_empty-contains [] c h = refl
is_empty-contains (x ∷ xs) c h = absurd (ground arith)

member : (xs : List ℕ) → is_empty xs ≡ false → (c : ℕ) × (contains xs c ≡ true)
unfolding is_empty contains
member [] h = absurd (ground arith)
member (x ∷ xs) h = (x, rw (eq_self x) refl)

-- In a well-formed index, an entry with at least one canonical id, all of them allocated, is skipped
-- when no context uses any of its ids, and otherwise has an id that a context uses.
pub is_skipped-uses :
    (i : Impl) (bitmap : List ℕ)
    → WellFormed i
    → is_empty bitmap ≡ false
    → ((c : ℕ) → contains bitmap c ≡ true → c < i.max_canonical_id)
    → (is_skipped i.removed bitmap ≡ true → (c : ℕ) → contains bitmap c ≡ true → uses i c ≡ 0)
      × (is_skipped i.removed bitmap ≡ false
          → (c : ℕ) × (contains bitmap c ≡ true) × (1 ≤ uses i c))
unfolding is_skipped
is_skipped-uses i bitmap w filled known = (
  λ skip c h. unused c h (
      ground (
        arith,
        contains-subtract bitmap i.removed c,
        is_empty-contains (subtract bitmap i.removed) c,
        skip,
        h,
      )),
  λ keep. elim (Bool-cases (is_empty i.removed)) [
    | inl none_removed ↦
        let (c, h) = member bitmap filled in
        (c, h, used c h (is_empty-contains i.removed c none_removed))
    | inr some_removed ↦
        let (c, h) = member (subtract bitmap i.removed) (ground (arith, some_removed, keep)) in
        (
          c,
          ground (arith, contains-subtract bitmap i.removed c, h),
          used c (ground (arith, contains-subtract bitmap i.removed c, h))
              (ground (arith, contains-subtract bitmap i.removed c, h)),
        )
  ],
)
  where
    unused : (c : ℕ) → contains bitmap c ≡ true → contains i.removed c ≡ true → uses i c ≡ 0
    unused c h gone = (nat_beq_iff (uses i c) 0).0 (sym (w.balanced.dropped c (known c h)) ∙ gone)

    positive : (n : ℕ) → (n == 0) ≡ false → 1 ≤ n
    positive n h = ground arith

    used : (c : ℕ) → contains bitmap c ≡ true → contains i.removed c ≡ false → 1 ≤ uses i c
    used c h kept = positive (uses i c) (sym (w.balanced.dropped c (known c h)) ∙ kept)

-- Whether some include location of the context changed after the build.
unfoldable pub any_changed : (ℕ → Option ℕ) → ℕ → List IncludeLocation → Bool
any_changed status build_at [] = false
any_changed status build_at (l ∷ ls) =
    changed status build_at l.path_id || any_changed status build_at ls

locations_changed-any :
    (status : ℕ → Option ℕ) (build_at : ℕ) (seen : List ℕ) (ls : List IncludeLocation)
    → ((p : ℕ) → contains seen p ≡ true → changed status build_at p ≡ false)
    → locations_changed status build_at seen ls ≡ any_changed status build_at ls
unfolding locations_changed any_changed contains changed
locations_changed-any status build_at seen [] fresh = refl
locations_changed-any status build_at seen (l ∷ ls) fresh =
    elim (Bool-cases (contains seen l.path_id)) [
      | inl old ↦
          rw (old, fresh l.path_id old) (locations_changed-any status build_at seen ls fresh)
      | inr new ↦ rw new (elim (Option-cases (status l.path_id)) [
        | inl gone ↦ rw (gone, changed) refl
        | inr (time, there) ↦ rw there (elim (Bool-cases (ltb build_at time)) [
          | inl late ↦ rw (changed_at there late, late) refl
          | inr early ↦
              rw (changed_at there early, early)
                (locations_changed-any status build_at (l.path_id ∷ seen) ls λ p h.
                  elim (contains_cases l.path_id seen p h) [
                    | inl same ↦
                        subst (λ x. changed status build_at x ≡ false) same (changed_at there early)
                    | inr old ↦ fresh p old
                  ])
        ])
      ])
    ]
  where
    changed_at :
        {time : ℕ} {b : Bool}
        → status l.path_id ≡ some time
        → ltb build_at time ≡ b
        → changed status build_at l.path_id ≡ b
    changed_at there e = rw (there, changed) e

-- `need_update` answers true exactly when there is no compilation context, or a location of the
-- first one names a file that is gone or that is newer than the build.
pub need_update-any :
    (status : ℕ → Option ℕ) (i : Impl)
    → need_update status i ≡ elim i.compilation_contexts [
      | [] ↦ true
      | (path, context) ∷ rest ↦ any_changed status context.build_at context.include_locations
    ]
unfolding need_update contains
need_update-any status i = at_contexts i.compilation_contexts
  where
    at_contexts :
        (m : Table ℕ CompilationContext)
        → elim m as (λ x. Bool) [
          | [] ↦ true
          | (path, context) ∷ rest ↦
              locations_changed status context.build_at [] context.include_locations
        ]
          ≡ elim m [
            | [] ↦ true
            | (path, context) ∷ rest ↦ any_changed status context.build_at context.include_locations
          ]
    at_contexts [] = refl
    at_contexts ((path, context) ∷ rest) =
        locations_changed-any status context.build_at [] context.include_locations
          (λ p h. absurd (ground arith))
