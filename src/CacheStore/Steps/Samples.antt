-- ===== src/CacheStore/Steps/Samples.antt =====
-- The theorems on sequences of operations of src/support/cache_store.cpp at a concrete store.
use clice.Base.{
  ◌≡◌, inl, inr, refl, subst, true, false, some, none, [], ◌∷◌, arith, lookup, ◌==◌,
  string_equality,
}
use clice.CacheStore.{Namespace, Store, CommitAnswers, commit, invalidate}
use clice.CacheStore.Account.{Accounted, pick}
use clice.CacheStore.Samples.{namespace, namespace-Accounted}
use clice.CacheStore.Steps.{SizesFit, Steps, commits, invalidates, none_yet, then_one}
use clice.CacheStore.Steps.Accounted.{StoreAccounted}
use clice.CacheStore.Steps.Checkpoint.{Pending, Succeeds, Counts, steps_changes, steps-Counts}
use clice.CacheStore.Steps.Whole.{steps-StoreAccounted}

abbrev store : Store
store = record {
  namespaces = ("pch", namespace) ∷ [];
  changes_since_checkpoint = 15;
  dirty = true;
  last_stamp = 2;
}

store-Accounted : StoreAccounted store
unfolding lookup
store-Accounted name ns h = elim (pick ("pch" == name) (some namespace) none ns h) [
  | inl (same, e) ↦ subst Accounted (some_value ns e) namespace-Accounted
  | inr (other, e) ↦ absurd (ground arith)
]
  where
    some_value : (r : Namespace) → some namespace ≡ some r → namespace ≡ r
    some_value r e = ground (arith, e)

store-Pending : Pending store
store-Pending = record { flagged = λ e. absurd (ground arith); few = omega arith }

abbrev answers : CommitAnswers
answers = record {
  tmp_size = some 40;
  synced = true;
  renamed = true;
  same_content = false;
  final_size = none;
  retried = false;
}

answers-SizesFit : SizesFit answers
answers-SizesFit = record { tmp = λ n e. ground (arith, e); final = λ n e. absurd (ground arith) }

abbrev committed : Store
committed = (commit "pch" "c" 9 answers (λ k. true) true store).0

abbrev two_steps : Steps Succeeds store (invalidate "pch" "c" true committed)
two_steps =
    then_one
      (then_one none_yet (commits "pch" "c" 9 answers (λ k. true) true refl answers-SizesFit))
      (invalidates "pch" "c" true refl)

steps-StoreAccounted_example : StoreAccounted (invalidate "pch" "c" true committed)
steps-StoreAccounted_example = steps-StoreAccounted two_steps store-Accounted

steps-Counts_example : Counts (steps_changes two_steps) store (invalidate "pch" "c" true committed)
steps-Counts_example = steps-Counts two_steps store-Pending
