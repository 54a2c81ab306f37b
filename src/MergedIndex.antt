-- ===== src/MergedIndex.antt =====
-- src/index/merged_index.cpp: the index of one file, merged from the contexts that it is compiled in.
-- The SHA256 of a `FileIndex` is an argument of `merge`; what FlatBuffers wrote is read back as the
-- lists that were written, a `Stored`.
pub mod Data
pub mod Counts
pub mod Invariant
pub mod Query
pub mod Stored
mod Samples
use clice.Base.{
  u32, ℕ, suc, zero, ◌+◌, ◌-◌, ◌%◌, Bool, true, false, not, ◌&&◌, ◌||◌, Option, none, some, List,
  [], ◌∷◌, ◌++◌, String, Table, lookup, insert, adjust, erase, contains, remove, if◌then◌else◌, ltb,
  leb, ◌==◌, nat_equality, string_equality,
}
use clice.MergedIndex.Data.{
  Occurrence, Relation, occurrence_equality, relation_equality, IncludeLocation, FileIndex, Symbol,
  IncludeContext, HeaderContext, CompilationContext,
}

-- `MergedIndex::Impl`. The line starts are computed from the content.
pub record Impl : Type 0 where
  pub content : String
  pub header_contexts : Table ℕ HeaderContext
  pub compilation_contexts : Table ℕ CompilationContext
  pub canonical_cache : Table ℕ ℕ
  pub max_canonical_id : ℕ
  pub canonical_ref_counts : List ℕ
  pub removed : List ℕ
  pub occurrences : Table Occurrence (List ℕ)
  pub relations : Table ℕ (Table Relation (List ℕ))
  pub symbols : Table ℕ Symbol
  pub occurrences_cache : List Occurrence

unfoldable pub empty_impl : Impl
empty_impl = record {
  content = "";
  header_contexts = [];
  compilation_contexts = [];
  canonical_cache = [];
  max_canonical_id = 0;
  canonical_ref_counts = [];
  removed = [];
  occurrences = [];
  relations = [];
  symbols = [];
  occurrences_cache = [];
}

-- `Roaring::add`.
unfoldable pub add_member : ℕ → List ℕ → List ℕ
add_member c xs = if contains xs c then xs else c ∷ xs

-- `counts[c]` of a vector; the source does not read past the end.
unfoldable pub count_at : ℕ → List ℕ → ℕ
count_at c [] = 0
count_at zero (x ∷ xs) = x
count_at (suc c) (x ∷ xs) = count_at c xs

unfoldable pub edit_at : ℕ → (ℕ → ℕ) → List ℕ → List ℕ
edit_at c f [] = []
edit_at zero f (x ∷ xs) = f x ∷ xs
edit_at (suc c) f (x ∷ xs) = x ∷ edit_at c f xs

-- `ref_counts -= 1` and the test behind it.
unfoldable pub drop_use : ℕ → Impl → Impl
unfolding edit_at count_at add_member
drop_use c i =
    let counts = edit_at c (λ n. (n + u32 - 1) % u32) i.canonical_ref_counts in
    record i {
      canonical_ref_counts = counts;
      removed = if count_at c counts == 0 then add_member c i.removed else i.removed;
    }

-- The hit in the cache: `canonical_ref_counts[c] += 1; removed.remove(c)`.
unfoldable pub add_use : ℕ → Impl → Impl
unfolding edit_at
add_use c i = record i {
  canonical_ref_counts = edit_at c (λ n. (n + 1) % u32) i.canonical_ref_counts;
  removed = remove c i.removed;
}

-- `occurrences[occurrence].add(c)` for each occurrence.
unfoldable pub merge_occurrences :
    ℕ → List Occurrence → Table Occurrence (List ℕ) → Table Occurrence (List ℕ)
unfolding add_member
merge_occurrences c [] m = m
merge_occurrences c (o ∷ os) m = merge_occurrences c os (elim (lookup o m) [
  | none ↦ insert o (c ∷ []) m
  | some bitmap ↦ insert o (add_member c bitmap) m
])

-- `target[relation].add(c)` for each relation.
unfoldable pub merge_target : ℕ → List Relation → Table Relation (List ℕ) → Table Relation (List ℕ)
unfolding add_member
merge_target c [] m = m
merge_target c (r ∷ rs) m = merge_target c rs (elim (lookup r m) [
  | none ↦ insert r (c ∷ []) m
  | some bitmap ↦ insert r (add_member c bitmap) m
])

unfoldable pub merge_relations :
    ℕ
    → Table ℕ (List Relation)
    → Table ℕ (Table Relation (List ℕ))
    → Table ℕ (Table Relation (List ℕ))
unfolding merge_target
merge_relations c [] m = m
merge_relations c ((symbol, rs) ∷ rest) m = merge_relations c rest (
    insert symbol (merge_target c rs (elim (lookup symbol m) [ none ↦ [] | some target ↦ target ]))
      m)

-- The end of `Impl::merge` for an index that is not in the cache.
unfoldable pub add_canonical : FileIndex → Impl → Impl
unfolding merge_occurrences merge_relations
add_canonical index i = record i {
  occurrences = merge_occurrences i.max_canonical_id index.occurrences i.occurrences;
  relations = merge_relations i.max_canonical_id index.relations i.relations;
  canonical_ref_counts = i.canonical_ref_counts ++ (1 ∷ []);
  max_canonical_id = (i.max_canonical_id + 1) % u32;
}

-- `Impl::merge`, with the function that adds the context.
unfoldable pub merge_impl : ℕ → FileIndex → (ℕ → Impl → Impl) → Impl → Impl
unfolding add_use add_canonical
merge_impl hash index add_context i = elim (lookup hash i.canonical_cache) [
  | some c ↦ add_use c (add_context c i)
  | none ↦ add_canonical index (
      add_context i.max_canonical_id
        (record i { canonical_cache = insert hash i.max_canonical_id i.canonical_cache }))
]

-- The fields that the lambda of `merge` writes, over the context that was there.
unfoldable pub set_compilation :
    ℕ → ℕ → List IncludeLocation → Option CompilationContext → CompilationContext
set_compilation c build_at locations none = record {
  version = 0;
  canonical_id = c;
  build_at = build_at;
  include_locations = locations;
}
set_compilation c build_at locations (some old) = record old {
  canonical_id = c;
  build_at = build_at;
  include_locations = locations;
}

unfoldable pub add_compilation_context : ℕ → ℕ → List IncludeLocation → ℕ → Impl → Impl
unfolding set_compilation
add_compilation_context path build_at locations c i = record i {
  compilation_contexts =
      insert path (set_compilation c build_at locations (lookup path i.compilation_contexts))
        i.compilation_contexts;
}

unfoldable pub add_include : IncludeContext → Option HeaderContext → HeaderContext
add_include include none = record { version = 0; includes = include ∷ [] }
add_include include (some old) = record old { includes = old.includes ++ (include ∷ []) }

unfoldable pub add_header_context : ℕ → ℕ → ℕ → Impl → Impl
unfolding add_include
add_header_context path include_id c i = record i {
  header_contexts =
      insert path
        (add_include (record { include_id = include_id; canonical_id = c })
          (lookup path i.header_contexts))
        i.header_contexts;
}

-- `MergedIndex::merge` for a compilation context.
unfoldable pub merge_source : ℕ → ℕ → List IncludeLocation → ℕ → FileIndex → String → Impl → Impl
unfolding merge_impl add_compilation_context
merge_source path build_at locations hash index content i =
    record (merge_impl hash index (add_compilation_context path build_at locations)
      (record i { content = content })) { occurrences_cache = [] }

-- `MergedIndex::merge` for a header context.
unfoldable pub merge_header : ℕ → ℕ → ℕ → FileIndex → String → Impl → Impl
unfolding merge_impl add_header_context
merge_header path include_id hash index content i =
    let filled =
      if (i.content == "") && not (content == "") then record i { content = content } else i in
    record (merge_impl hash index (add_header_context path include_id) filled) {
      occurrences_cache = [];
    }

unfoldable pub drop_includes : List IncludeContext → Impl → Impl
unfolding drop_use
drop_includes [] i = i
drop_includes (x ∷ xs) i = drop_includes xs (drop_use x.canonical_id i)

unfoldable pub remove_header : ℕ → Impl → Impl
unfolding drop_includes
remove_header path i = elim (lookup path i.header_contexts) [
  | none ↦ i
  | some context ↦
      let i' = drop_includes context.includes i in
      record i' { header_contexts = erase path i'.header_contexts }
]

unfoldable pub remove_compilation : ℕ → Impl → Impl
unfolding drop_use
remove_compilation path i = elim (lookup path i.compilation_contexts) [
  | none ↦ i
  | some context ↦
      let i' = drop_use context.canonical_id i in
      record i' { compilation_contexts = erase path i'.compilation_contexts }
]

-- `MergedIndex::remove`.
unfoldable pub remove_path : ℕ → Impl → Impl
unfolding remove_header remove_compilation
remove_path path i = record (remove_compilation path (remove_header path i)) {
  occurrences_cache = [];
}
