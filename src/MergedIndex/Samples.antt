-- ===== src/MergedIndex/Samples.antt =====
-- The theorems on the merged index (src/index/merged_index.cpp) at concrete indices.
use clice.Base.{
  u32, ℕ, ◌+◌, ◌≤◌, ◌<◌, ◌≡◌, refl, true, false, ◌&&◌, none, some, List, [], ◌∷◌, Table, arith,
  lookup, insert, NodupKeys, contains, total, ◌==◌, nat_equality, nat_beq_iff,
}
use clice.MergedIndex.Data.{Relation, relation_equality, FileIndex}
use clice.MergedIndex.{Impl, empty_impl, merge_header, merge_source, remove_path}
use clice.MergedIndex.Invariant.{
  WellFormed, uses, empty_impl-WellFormed, merge_header-WellFormed, merge_source-WellFormed,
  remove_path-WellFormed,
}
use clice.MergedIndex.Stored.{serialize, load_in_memory}
use clice.MergedIndex.Stored.RoundTrip.{Restores, load_in_memory-serialize}
use clice.MergedIndex.Query.{lookup_relations, is_skipped, is_empty, need_update}
use clice.MergedIndex.Query.Live.{
  until, is_live, lookup_relations-until, is_skipped-uses, any_changed, need_update-any,
}

abbrev reference : Relation
reference = record { kind = 3; begin = 4; end = 9; target_symbol = 0 }

abbrev file : FileIndex
file = record { relations = (11, reference ∷ []) ∷ []; occurrences = [] }

room : (c : ℕ) → uses empty_impl c + 1 < u32
unfolding empty_impl total
room c = omega arith

fits : empty_impl.max_canonical_id + 1 < u32
unfolding empty_impl
fits = omega arith

no_context : lookup 5 empty_impl.compilation_contexts ≡ none
unfolding empty_impl lookup
no_context = refl

abbrev with_header : Impl
with_header = merge_header 5 0 77 file "int x;" empty_impl

merge_header_example : WellFormed with_header
merge_header_example =
    merge_header-WellFormed 5 0 77 file "int x;" empty_impl empty_impl-WellFormed fits room

merge_source_example : WellFormed (merge_source 5 1000 [] 77 file "int x;" empty_impl)
merge_source_example =
    merge_source-WellFormed 5 1000 [] 77 file "int x;" empty_impl empty_impl-WellFormed no_context
      fits room

with_header-WellFormed : WellFormed with_header
with_header-WellFormed =
    merge_header-WellFormed 5 0 77 file "int x;" empty_impl empty_impl-WellFormed fits room

remove_path_example : WellFormed (remove_path 5 with_header)
remove_path_example = remove_path-WellFormed 5 with_header with_header-WellFormed

abbrev targets : Table Relation (List ℕ)
targets = (reference, 0 ∷ []) ∷ []

targets-NodupKeys : NodupKeys targets
unfolding lookup
targets-NodupKeys = (refl, tt)

with_header_relations : lookup 11 with_header.relations ≡ some targets
unfolding merge_header empty_impl lookup insert
with_header_relations = refl

lookup_relations_example :
    (rs : List Relation) × (lookup_relations 11 3 (λ r. true) with_header ≡ until (λ r. true) rs)
    × ((r : Relation)
        → contains rs r ≡ ((r.kind == 3) && is_live with_header.removed (lookup r targets)))
lookup_relations_example =
    lookup_relations-until 11 3 (λ r. true) with_header targets with_header_relations
      targets-NodupKeys

filled : is_empty (0 ∷ []) ≡ false
unfolding is_empty
filled = refl

allocated : (c : ℕ) → contains (0 ∷ []) c ≡ true → c < with_header.max_canonical_id
unfolding merge_header empty_impl lookup contains
allocated c h = ground (arith, nat_beq_iff 0 c)

is_skipped_example :
    (is_skipped with_header.removed (0 ∷ []) ≡ true
      → (c : ℕ) → contains (0 ∷ []) c ≡ true
      → uses with_header c ≡ 0)
    × (is_skipped with_header.removed (0 ∷ []) ≡ false
        → (c : ℕ) × (contains (0 ∷ []) c ≡ true) × (1 ≤ uses with_header c))
is_skipped_example = is_skipped-uses with_header (0 ∷ []) with_header-WellFormed filled allocated

need_update_example :
    need_update (λ p. some 2000) (merge_source 5 1000 [] 77 file "int x;" empty_impl)
    ≡ elim (merge_source 5 1000 [] 77 file "int x;" empty_impl).compilation_contexts [
      | [] ↦ true
      | (path, context) ∷ rest ↦
          any_changed (λ p. some 2000) context.build_at context.include_locations
    ]
need_update_example =
    need_update-any (λ p. some 2000) (merge_source 5 1000 [] 77 file "int x;" empty_impl)

load_in_memory_example : Restores with_header (load_in_memory (serialize with_header))
load_in_memory_example = load_in_memory-serialize with_header with_header-WellFormed
