-- ===== src/MergedIndex/Query.antt =====
-- The queries of src/index/merged_index.cpp: `lookup`, `find_symbol`, `merge_symbols`, `need_update`.
-- A callback is a function that says whether to go on; a query returns what it passed to it.
pub mod Live
use clice.Base.{
  ℕ, Bool, true, false, not, ◌&&◌, ◌||◌, Option, none, some, List, [], ◌∷◌, String, Table, lookup,
  insert, contains, keys, if◌then◌else◌, ltb, leb, ◌==◌, nat_equality,
}
use clice.MergedIndex.{Impl}
use clice.MergedIndex.Data.{
  Occurrence, Relation, occurrence_equality, IncludeLocation, Symbol, CompilationContext,
}

unfoldable pub is_empty : List ℕ → Bool
is_empty [] = true
is_empty (x ∷ xs) = false

-- `bitmap - removed`.
unfoldable pub subtract : List ℕ → List ℕ → List ℕ
subtract [] removed = []
subtract (c ∷ cs) removed =
    if contains removed c then subtract cs removed else c ∷ subtract cs removed

-- All canonical ids of an entry are removed.
unfoldable pub is_skipped : List ℕ → List ℕ → Bool
unfolding is_empty subtract
is_skipped removed bitmap = not (is_empty removed) && is_empty (subtract bitmap removed)

-- The loop over the relations of a symbol; `relation.kind & kind` tests equality of the kinds.
unfoldable pub walk_relations :
    ℕ → (Relation → Bool) → List ℕ → Table Relation (List ℕ) → List Relation
unfolding is_skipped
walk_relations kind callback removed [] = []
walk_relations kind callback removed ((r, bitmap) ∷ rest) =
    let others = walk_relations kind callback removed rest in
    if (r.kind == kind) && not (is_skipped removed bitmap)
    then r ∷ (if callback r then others else [])
    else others

-- `MergedIndex::lookup` of a symbol, in memory.
unfoldable pub lookup_relations : ℕ → ℕ → (Relation → Bool) → Impl → List Relation
unfolding walk_relations
lookup_relations symbol kind callback i = elim (lookup symbol i.relations) [
  | none ↦ []
  | some relations ↦ walk_relations kind callback i.removed relations
]

-- The order of `std::tuple(begin, end, target)`.
unfoldable pub occurrence_before : Occurrence → Occurrence → Bool
occurrence_before a b =
    ltb a.begin b.begin
    || ((a.begin == b.begin) && (ltb a.end b.end || ((a.end == b.end) && ltb a.target b.target)))

-- `std::ranges::sort`.
unfoldable pub insert_occurrence : Occurrence → List Occurrence → List Occurrence
unfolding occurrence_before
insert_occurrence o [] = o ∷ []
insert_occurrence o (x ∷ xs) =
    if occurrence_before x o then x ∷ insert_occurrence o xs else o ∷ x ∷ xs

unfoldable pub sort_occurrences : List Occurrence → List Occurrence
unfolding insert_occurrence
sort_occurrences [] = []
sort_occurrences (o ∷ os) = insert_occurrence o (sort_occurrences os)

-- The cache, filled on the first use.
unfoldable pub cached_occurrences : Impl → List Occurrence
unfolding sort_occurrences
cached_occurrences i = elim i.occurrences_cache [
  | [] ↦ sort_occurrences (keys i.occurrences)
  | o ∷ os ↦ o ∷ os
]

-- `std::ranges::lower_bound` by the end of the range.
unfoldable pub lower_bound : ℕ → List Occurrence → List Occurrence
lower_bound offset [] = []
lower_bound offset (o ∷ os) = if ltb o.end offset then lower_bound offset os else o ∷ os

unfoldable pub range_contains : Occurrence → ℕ → Bool
range_contains o offset = leb o.begin offset && leb offset o.end

unfoldable pub occurrence_skipped : Impl → Occurrence → Bool
unfolding is_skipped
occurrence_skipped i o = elim (lookup o i.occurrences) [
  | none ↦ false
  | some bitmap ↦ is_skipped i.removed bitmap
]

-- The loop from the lower bound.
unfoldable pub walk_occurrences : ℕ → (Occurrence → Bool) → Impl → List Occurrence → List Occurrence
unfolding range_contains occurrence_skipped
walk_occurrences offset callback i [] = []
walk_occurrences offset callback i (o ∷ os) =
    let others = walk_occurrences offset callback i os in
    if range_contains o offset
    then (if occurrence_skipped i o then others else o ∷ (if callback o then others else []))
    else []

-- `MergedIndex::lookup` of an offset, in memory.
unfoldable pub lookup_offset : ℕ → (Occurrence → Bool) → Impl → List Occurrence
unfolding cached_occurrences lower_bound walk_occurrences
lookup_offset offset callback i =
    walk_occurrences offset callback i (lower_bound offset (cached_occurrences i))

-- `MergedIndex::find_symbol`, in memory.
unfoldable pub find_symbol : ℕ → Impl → Option (String × ℕ)
find_symbol hash i = elim (lookup hash i.symbols) [ none ↦ none | some s ↦ some (s.name, s.kind) ]

-- `MergedIndex::merge_symbols`: the first symbol with a hash stays; `reference_files` is not copied.
unfoldable pub merge_symbols : Table ℕ Symbol → Impl → Impl
merge_symbols [] i = i
merge_symbols ((hash, s) ∷ rest) i = merge_symbols rest (elim (lookup hash i.symbols) [
  | some old ↦ i
  | none ↦ record i { symbols = insert hash (record s { reference_files = [] }) i.symbols }
])

-- The loop over the include locations. `status` is the modification time that the file system
-- reports for a path, if it does.
unfoldable pub locations_changed : (ℕ → Option ℕ) → ℕ → List ℕ → List IncludeLocation → Bool
locations_changed status build_at seen [] = false
locations_changed status build_at seen (l ∷ ls) =
    let skipped = locations_changed status build_at seen ls in
    let rest = locations_changed status build_at (l.path_id ∷ seen) ls in
    if contains seen l.path_id then skipped else (elim (status l.path_id) [
      | none ↦ true
      | some time ↦ if ltb build_at time then true else rest
    ])

-- `MergedIndex::need_update`, in memory; the first context of the table is the one that is asked.
unfoldable pub need_update : (ℕ → Option ℕ) → Impl → Bool
unfolding locations_changed
need_update status i = elim i.compilation_contexts [
  | [] ↦ true
  | (path, context) ∷ rest ↦ locations_changed status context.build_at [] context.include_locations
]
