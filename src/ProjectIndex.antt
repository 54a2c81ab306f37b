-- ===== src/ProjectIndex.antt =====
-- src/support/path_pool.h and src/index/project_index.{h,cpp}: paths interned as numbers, and the
-- project-wide symbols. A path is the list of its bytes.
pub mod Interned
mod Samples
use clice.Base.{
  u32, ℕ, zero, suc, ◌+◌, ◌%◌, ◌≡◌, ◌↔◌, refl, Bool, true, false, ◌&&◌, Option, none, some, List,
  [], ◌∷◌, ◌++◌, map, Table, lookup, insert, length, if◌then◌else◌, Equality, ◌==◌, nat_equality,
  string_equality, nat_beq_iff, arith,
}
use clice.MergedIndex.Data.{Symbol, SymbolScope, external, tu_local, file_local}
use clice.MergedIndex.{add_member}

unfoldable pub same_path : List ℕ → List ℕ → Bool
same_path [] [] = true
same_path [] (y ∷ ys) = false
same_path (x ∷ xs) [] = false
same_path (x ∷ xs) (y ∷ ys) = (x == y) && same_path xs ys

pub same_path_iff : (xs ys : List ℕ) → (same_path xs ys ≡ true) ↔ (xs ≡ ys)
unfolding same_path
same_path_iff [] [] = ground arith
same_path_iff [] (y ∷ ys) = ground arith
same_path_iff (x ∷ xs) [] = ground arith
same_path_iff (x ∷ xs) (y ∷ ys) = ground (arith, same_path_iff xs ys, nat_beq_iff x y)

instance abbrev pub path_equality : Equality (List ℕ)
path_equality = record { test = same_path; test_iff = same_path_iff }

pub record PathPool : Type 0 where
  pub paths : List (List ℕ)
  pub cache : Table (List ℕ) ℕ

-- Backslashes become slashes.
unfoldable pub normalize : List ℕ → List ℕ
normalize [] = []
normalize (c ∷ cs) = (if c == b'\\' then b'/' else c) ∷ normalize cs

-- `PathPool::intern`, and `PathPool::path_id` of the project index.
unfoldable pub intern : List ℕ → PathPool → PathPool × ℕ
unfolding normalize
intern path pool =
    let p = normalize path in
    let id = length pool.paths % u32 in
    elim (lookup p pool.cache) [
      | some old ↦ (pool, old)
      | none ↦ (record { paths = pool.paths ++ (p ∷ []); cache = insert p id pool.cache }, id)
    ]

-- `PathPool::resolve`, where the identifier is in range.
unfoldable pub resolve : ℕ → List (List ℕ) → Option (List ℕ)
resolve i [] = none
resolve zero (p ∷ ps) = some p
resolve (suc i) (p ∷ ps) = resolve i ps

-- `PathPool::find` of the project index.
unfoldable pub find_path : List ℕ → PathPool → Option ℕ
unfolding normalize
find_path path pool = lookup (normalize path) pool.cache

pub record ProjectIndex : Type 0 where
  pub path_pool : PathPool
  pub symbols : Table ℕ Symbol

-- The loop that fills `file_ids_map`.
unfoldable pub intern_all : List (List ℕ) → PathPool → PathPool × List ℕ
unfolding intern
intern_all [] pool = (pool, [])
intern_all (p ∷ ps) pool =
    let (pool', id) = intern p pool in let (pool'', ids) = intern_all ps pool' in (pool'', id ∷ ids)

-- `file_ids_map[ref]`; the source stays within the map.
unfoldable pub id_at : ℕ → List ℕ → ℕ
id_at i [] = 0
id_at zero (x ∷ xs) = x
id_at (suc i) (x ∷ xs) = id_at i xs

unfoldable pub add_references : List ℕ → List ℕ → List ℕ → List ℕ
unfolding id_at add_member
add_references ids [] files = files
add_references ids (ref ∷ refs) files = add_references ids refs (add_member (id_at ref ids) files)

unfoldable pub is_external : SymbolScope → Bool
is_external external = true
is_external tu_local = false
is_external file_local = false

abbrev pub new_symbol : Symbol
new_symbol = record { name = ""; kind = 0; scope = external; reference_files = [] }

-- The name and the kind are taken once, the references every time.
unfoldable pub merge_symbol : List ℕ → Symbol → Symbol → Symbol
unfolding add_references
merge_symbol ids symbol target =
    let named =
      if target.name == ""
      then record target { name = symbol.name; kind = symbol.kind }
      else target in
    record named {
      reference_files = add_references ids symbol.reference_files named.reference_files;
    }

-- The loop over the symbols of the translation unit.
unfoldable pub merge_external : List ℕ → Table ℕ Symbol → Table ℕ Symbol → Table ℕ Symbol
unfolding is_external merge_symbol
merge_external ids [] m = m
merge_external ids ((hash, symbol) ∷ rest) m = merge_external ids rest (
    if is_external symbol.scope
    then insert hash
        (merge_symbol ids symbol (elim (lookup hash m) [ none ↦ new_symbol | some old ↦ old ])) m
    else m)

-- `ProjectIndex::merge`, for the paths and the symbols of a `TUIndex`.
unfoldable pub merge_project : List (List ℕ) → Table ℕ Symbol → ProjectIndex → ProjectIndex × List ℕ
unfolding intern_all merge_external
merge_project paths symbols index =
    let (pool, ids) = intern_all paths index.path_pool in
    (record { path_pool = pool; symbols = merge_external ids symbols index.symbols }, ids)
