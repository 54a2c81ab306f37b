-- ===== src/ProjectIndex/Samples.antt =====
-- The theorems on interned paths (src/support/path_pool.h) at a concrete pool.
use clice.Base.{ℕ, ◌≡◌, ◌↔◌, List, [], ◌∷◌, arith, lookup}
use clice.ProjectIndex.{PathPool, intern, resolve, path_equality}
use clice.ProjectIndex.Interned.{SamePath, Interned, Interns, intern-Interns, intern-same}

abbrev no_paths : PathPool
no_paths = record { paths = []; cache = [] }

no_paths-Interned : Interned no_paths
unfolding resolve lookup
no_paths-Interned = record {
  cached = λ p i h. absurd (ground arith);
  stored = λ i p h. absurd (ground arith);
}

abbrev with_slash : List ℕ
with_slash = b'a' ∷ b'/' ∷ b'b' ∷ []

abbrev with_backslash : List ℕ
with_backslash = b'a' ∷ b'\\' ∷ b'b' ∷ []

intern_example : Interns with_backslash no_paths (intern with_backslash no_paths)
intern_example = intern-Interns with_backslash no_paths no_paths-Interned (omega arith)

intern_same_example :
    ((intern with_slash no_paths).1 ≡ (intern with_backslash (intern with_slash no_paths).0).1)
    ↔ SamePath with_slash with_backslash
intern_same_example = intern-same with_slash with_backslash no_paths no_paths-Interned (omega arith)
