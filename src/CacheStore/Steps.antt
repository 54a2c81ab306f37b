-- ===== src/CacheStore/Steps.antt =====
-- src/support/cache_store.cpp: the operations on a store as they follow each other.
pub mod Accounted
pub mod Checkpoint
mod Samples
pub mod Whole
use clice.Base.{u64, ℕ, ◌<◌, ◌≡◌, Bool, Option, some, String, lookup, string_equality}
use clice.CacheStore.{
  Namespace, Store, lookup_blob, CommitAnswers, invalidate, commit_named, commit,
}

-- The sizes that the file system answers are below 2^64.
pub record SizesFit (a : CommitAnswers) : Type 0 where
  pub tmp : (n : ℕ) → a.tmp_size ≡ some n → n < u64
  pub final : (n : ℕ) → a.final_size ≡ some n → n < u64

-- The operations, as they follow each other under the lock. `publishes` is the part of a commit behind
-- the flush, where other operations ran since the commit found its namespace. `Writes` holds of what
-- the file system may answer where a checkpoint writes the manifest.
pub data Step (Writes : Bool → Type 0) (s : Store) : Store → Type 0 where
  looks : (name key : String) (now : ℕ) → Step Writes s (lookup_blob name key now s).0
  commits :
      (name key : String) (now : ℕ) (a : CommitAnswers) (removable : String → Bool) (written : Bool)
      → Writes written
      → SizesFit a
      → Step Writes s (commit name key now a removable written s).0
  publishes :
      (name key : String) (size now : ℕ) (a : CommitAnswers) (removable : String → Bool)
      (written : Bool) (ns : Namespace)
      → lookup name s.namespaces ≡ some ns
      → Writes written
      → SizesFit a
      → size < u64
      → Step Writes s (commit_named name key size now a removable written ns s).0
  invalidates :
      (name key : String) (written : Bool)
      → Writes written
      → Step Writes s (invalidate name key written s)

pub data Steps (Writes : Bool → Type 0) (s : Store) : Store → Type 0 where
  none_yet : Steps Writes s s
  then_one : {t r : Store} → Steps Writes s t → Step Writes t r → Steps Writes s r
