-- ===== src/MergedIndex/Stored.antt =====
-- The serialized form of src/index/merged_index.cpp: `serialize`, `load_in_memory` and the branches of
-- the queries that read it. What FlatBuffers wrote is read back as the lists that were written.
pub mod RoundTrip
use clice.Base.{
  u32, ℕ, zero, suc, ◌+◌, ◌%◌, Bool, true, false, Option, none, some, List, [], ◌∷◌, String, Table,
  lookup, insert, if◌then◌else◌, ltb, ◌==◌, nat_equality, Equality,
}
use clice.MergedIndex.{Impl, edit_at}
use clice.MergedIndex.Data.{
  Occurrence, Relation, occurrence_equality, relation_equality, Symbol, IncludeContext,
  HeaderContext, CompilationContext,
}
use clice.MergedIndex.Query.{occurrence_before, range_contains}

-- `binary::MergedIndex`.
pub record Stored : Type 0 where
  pub max_canonical_id : ℕ
  pub canonical_cache : Table ℕ ℕ
  pub header_contexts : Table ℕ HeaderContext
  pub compilation_contexts : Table ℕ CompilationContext
  pub occurrences : Table Occurrence (List ℕ)
  pub relations : Table ℕ (Table Relation (List ℕ))
  pub removed : List ℕ
  pub content : String
  pub symbols : Table ℕ Symbol

-- The sort of the occurrences by range and target, and of the relations by symbol.
unfoldable pub insert_occurrence_entry :
    Occurrence → List ℕ → Table Occurrence (List ℕ) → Table Occurrence (List ℕ)
unfolding occurrence_before
insert_occurrence_entry o bitmap [] = (o, bitmap) ∷ []
insert_occurrence_entry o bitmap ((x, b) ∷ rest) =
    if occurrence_before x o
    then (x, b) ∷ insert_occurrence_entry o bitmap rest
    else (o, bitmap) ∷ (x, b) ∷ rest

unfoldable pub sort_occurrence_entries : Table Occurrence (List ℕ) → Table Occurrence (List ℕ)
unfolding insert_occurrence_entry
sort_occurrence_entries [] = []
sort_occurrence_entries ((o, bitmap) ∷ rest) =
    insert_occurrence_entry o bitmap (sort_occurrence_entries rest)

unfoldable pub insert_symbol_entry :
    ℕ
    → Table Relation (List ℕ)
    → Table ℕ (Table Relation (List ℕ))
    → Table ℕ (Table Relation (List ℕ))
insert_symbol_entry s rs [] = (s, rs) ∷ []
insert_symbol_entry s rs ((x, ys) ∷ rest) =
    if ltb x s then (x, ys) ∷ insert_symbol_entry s rs rest else (s, rs) ∷ (x, ys) ∷ rest

unfoldable pub sort_symbol_entries :
    Table ℕ (Table Relation (List ℕ)) → Table ℕ (Table Relation (List ℕ))
unfolding insert_symbol_entry
sort_symbol_entries [] = []
sort_symbol_entries ((s, rs) ∷ rest) = insert_symbol_entry s rs (sort_symbol_entries rest)

-- `MergedIndex::serialize` of an index in memory.
unfoldable pub serialize : Impl → Stored
unfolding sort_occurrence_entries sort_symbol_entries
serialize i = record {
  max_canonical_id = i.max_canonical_id;
  canonical_cache = i.canonical_cache;
  header_contexts = i.header_contexts;
  compilation_contexts = i.compilation_contexts;
  occurrences = sort_occurrence_entries i.occurrences;
  relations = sort_symbol_entries i.relations;
  removed = i.removed;
  content = i.content;
  symbols = i.symbols;
}

-- `try_emplace` of each entry.
module _ {ℓ κ} {K : Type ℓ} {V : Type κ} ⦃e : Equality K⦄ where
  unfoldable pub emplace : K → V → Table K V → Table K V
  emplace k v m = elim (lookup k m) [ none ↦ insert k v m | some old ↦ m ]

  unfoldable pub emplace_all : Table K V → Table K V → Table K V
  unfolding emplace
  emplace_all [] m = m
  emplace_all ((k, v) ∷ rest) m = emplace_all rest (emplace k v m)

-- `canonical_ref_counts.resize(n, 0)`.
unfoldable pub zeros : ℕ → List ℕ
zeros zero = []
zeros (suc n) = 0 ∷ zeros n

-- `canonical_ref_counts[c] += 1`.
unfoldable pub bump_count : ℕ → List ℕ → List ℕ
unfolding edit_at
bump_count c counts = edit_at c (λ n. (n + 1) % u32) counts

unfoldable pub bump_includes : List IncludeContext → List ℕ → List ℕ
unfolding bump_count
bump_includes [] counts = counts
bump_includes (x ∷ xs) counts = bump_includes xs (bump_count x.canonical_id counts)

unfoldable pub bump_headers : Table ℕ HeaderContext → List ℕ → List ℕ
unfolding bump_includes
bump_headers [] counts = counts
bump_headers ((path, context) ∷ rest) counts =
    bump_headers rest (bump_includes context.includes counts)

unfoldable pub bump_compilations : Table ℕ CompilationContext → List ℕ → List ℕ
unfolding bump_count
bump_compilations [] counts = counts
bump_compilations ((path, context) ∷ rest) counts =
    bump_compilations rest (bump_count context.canonical_id counts)

-- `relations[symbol]` and the entries of one symbol.
unfoldable pub load_relations :
    Table ℕ (Table Relation (List ℕ))
    → Table ℕ (Table Relation (List ℕ))
    → Table ℕ (Table Relation (List ℕ))
unfolding emplace_all
load_relations [] m = m
load_relations ((symbol, rs) ∷ rest) m =
    load_relations rest (
      insert symbol (emplace_all rs (elim (lookup symbol m) [ none ↦ [] | some target ↦ target ]))
        m)

-- The assignments to `index.symbols[id]`: the last entry of an id stays.
unfoldable pub load_symbols : Table ℕ Symbol → Table ℕ Symbol → Table ℕ Symbol
load_symbols [] m = m
load_symbols ((hash, symbol) ∷ rest) m = load_symbols rest (insert hash symbol m)

-- `MergedIndex::load_in_memory` from a buffer.
unfoldable pub load_in_memory : Stored → Impl
unfolding emplace_all zeros bump_headers bump_compilations load_relations load_symbols
load_in_memory s = record {
  content = s.content;
  header_contexts = emplace_all s.header_contexts [];
  compilation_contexts = emplace_all s.compilation_contexts [];
  canonical_cache = emplace_all s.canonical_cache [];
  max_canonical_id = s.max_canonical_id;
  canonical_ref_counts =
      bump_compilations s.compilation_contexts
        (bump_headers s.header_contexts (zeros s.max_canonical_id));
  removed = s.removed;
  occurrences = emplace_all s.occurrences [];
  relations = load_relations s.relations [];
  symbols = load_symbols s.symbols [];
  occurrences_cache = [];
}

-- `lookup` of an offset in the buffer: from the lower bound by the end of the range, without a look
-- at the removed ids.
unfoldable pub lower_bound_entry : ℕ → Table Occurrence (List ℕ) → Table Occurrence (List ℕ)
lower_bound_entry offset [] = []
lower_bound_entry offset ((o, bitmap) ∷ rest) =
    if ltb o.end offset then lower_bound_entry offset rest else (o, bitmap) ∷ rest

unfoldable pub walk_stored : ℕ → (Occurrence → Bool) → Table Occurrence (List ℕ) → List Occurrence
unfolding range_contains
walk_stored offset callback [] = []
walk_stored offset callback ((o, bitmap) ∷ rest) =
    let others = walk_stored offset callback rest in
    if range_contains o offset then o ∷ (if callback o then others else []) else []

unfoldable pub lookup_stored : ℕ → (Occurrence → Bool) → Stored → List Occurrence
unfolding lower_bound_entry walk_stored
lookup_stored offset callback s =
    walk_stored offset callback (lower_bound_entry offset s.occurrences)

-- `lookup` of a symbol in the buffer.
unfoldable pub walk_stored_relations :
    ℕ → (Relation → Bool) → Table Relation (List ℕ) → List Relation
walk_stored_relations kind callback [] = []
walk_stored_relations kind callback ((r, bitmap) ∷ rest) =
    let others = walk_stored_relations kind callback rest in
    if r.kind == kind then r ∷ (if callback r then others else []) else others

unfoldable pub lookup_stored_relations : ℕ → ℕ → (Relation → Bool) → Stored → List Relation
unfolding walk_stored_relations
lookup_stored_relations symbol kind callback s = elim (lookup symbol s.relations) [
  | none ↦ []
  | some relations ↦ walk_stored_relations kind callback relations
]
