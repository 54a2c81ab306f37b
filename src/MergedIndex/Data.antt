-- ===== src/MergedIndex/Data.antt =====
-- src/index/tu_index.h, src/index/include_graph.h and the context types of src/index/merged_index.cpp.
-- A bitmap (`roaring::Roaring`) is the list of its members.
use clice.Base.{
  ℕ, ◌≡◌, ◌↔◌, Bool, true, ◌&&◌, List, String, Table, arith, Equality, ◌==◌, nat_equality,
}

-- `index::Occurrence`, with the two ends of its `LocalSourceRange`.
pub record Occurrence : Type 0 where
  pub begin : ℕ
  pub end : ℕ
  pub target : ℕ

-- `index::Relation`; `padding` takes part in nothing.
pub record Relation : Type 0 where
  pub kind : ℕ
  pub begin : ℕ
  pub end : ℕ
  pub target_symbol : ℕ

-- `DenseMapInfo<Occurrence>::isEqual`.
abbrev pub same_occurrence : Occurrence → Occurrence → Bool
same_occurrence a b = (a.begin == b.begin) && ((a.end == b.end) && (a.target == b.target))

-- `DenseMapInfo<Relation>::isEqual`.
abbrev pub same_relation : Relation → Relation → Bool
same_relation a b =
    (a.kind == b.kind)
    && ((a.begin == b.begin) && ((a.end == b.end) && (a.target_symbol == b.target_symbol)))

pub same_occurrence_iff : (a b : Occurrence) → (same_occurrence a b ≡ true) ↔ (a ≡ b)
same_occurrence_iff a b = ground arith

pub same_relation_iff : (a b : Relation) → (same_relation a b ≡ true) ↔ (a ≡ b)
same_relation_iff a b = ground arith

instance abbrev pub occurrence_equality : Equality Occurrence
occurrence_equality = record { test = same_occurrence; test_iff = same_occurrence_iff }

instance abbrev pub relation_equality : Equality Relation
relation_equality = record { test = same_relation; test_iff = same_relation_iff }

pub record IncludeLocation : Type 0 where
  pub path_id : ℕ
  pub line : ℕ
  pub include : ℕ

-- `index::FileIndex`.
pub record FileIndex : Type 0 where
  pub relations : Table ℕ (List Relation)
  pub occurrences : List Occurrence

-- `index::SymbolScope`.
pub data SymbolScope : Type 0 where
  external tu_local file_local : SymbolScope

-- `index::Symbol`.
pub record Symbol : Type 0 where
  pub name : String
  pub kind : ℕ
  pub scope : SymbolScope
  pub reference_files : List ℕ

pub record IncludeContext : Type 0 where
  pub include_id : ℕ
  pub canonical_id : ℕ

pub record HeaderContext : Type 0 where
  pub version : ℕ
  pub includes : List IncludeContext

pub record CompilationContext : Type 0 where
  pub version : ℕ
  pub canonical_id : ℕ
  pub build_at : ℕ
  pub include_locations : List IncludeLocation
