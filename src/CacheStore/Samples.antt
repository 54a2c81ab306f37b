-- ===== src/CacheStore/Samples.antt =====
-- The theorems on the cache store (src/support/cache_store.cpp) at a concrete namespace.
use clice.Base.{
  u64, ◌≤◌, ◌<◌, ◌≡◌, ◌⊎◌, refl, Bool, true, false, some, none, [], ◌∷◌, String, arith, lookup,
  total, ◌==◌, if◌then◌else◌, string_equality,
}
use clice.CacheStore.{lru, Entry, Namespace, evict_locked, account}
use clice.CacheStore.Account.{Accounted}
use clice.CacheStore.Evict.{evict_locked-budget, Accounts, account-Accounts}

abbrev pub namespace : Namespace
namespace = record {
  policy = lru;
  max_bytes = 100;
  entries = ("a", record { size = 60; atime = 1 }) ∷ ("b", record { size = 70; atime = 2 }) ∷ [];
  total_size = 130;
}

small_entries : (k : String) (e : Entry) → lookup k namespace.entries ≡ some e → e.size < u64
unfolding lookup
small_entries k e h = cases ("a" == k) ("b" == k) h
  where
    size_eq : (a b : Entry) → some a ≡ some b → a.size < u64 → b.size < u64
    size_eq a b q lt = ground (arith, q, lt)

    cases :
        (x y : Bool)
        → (if x
            then some (record { size = 60; atime = 1 })
            else if y
            then some (record { size = 70; atime = 2 })
            else none)
          ≡ some e
        → e.size < u64
    cases true y q = size_eq (record { size = 60; atime = 1 }) e q (omega arith)
    cases false true q = size_eq (record { size = 70; atime = 2 }) e q (omega arith)
    cases false false q = absurd (ground arith)

pub namespace-Accounted : Accounted namespace
unfolding total lookup
namespace-Accounted = record {
  sum = omega arith;
  small = small_entries;
  nodup = (refl, (refl, tt));
}

evict_locked_example :
    ((evict_locked (λ k. true) "b" namespace).0.total_size ≤ 100)
    ⊎ ((k : String) (e : Entry)
        → lookup k (evict_locked (λ k. true) "b" namespace).0.entries ≡ some e
        → k ≡ "b")
evict_locked_example = evict_locked-budget "b" namespace namespace-Accounted refl (omega arith)

account_example : Accounts "c" 50 9 namespace (account "c" 50 9 (λ k. true) namespace)
account_example = account-Accounts "c" 50 9 (λ k. true) namespace namespace-Accounted (omega arith)
