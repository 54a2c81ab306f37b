-- ===== src/CacheStore/Steps/Whole.antt =====
-- The accounting of src/support/cache_store.cpp through any sequence of operations on a store.
use clice.Base.{Bool, nat_equality, string_equality}
use clice.CacheStore.{Store}
use clice.CacheStore.Steps.{Step, Steps, looks, commits, publishes, invalidates, none_yet, then_one}
use clice.CacheStore.Steps.Accounted.{
  StoreAccounted, lookup_blob-AllAccounted, commit-AllAccounted, commit_named-AllAccounted,
  invalidate-AllAccounted,
}

step-StoreAccounted :
    {Writes : Bool → Type 0} {s r : Store} → Step Writes s r → StoreAccounted s → StoreAccounted r
step-StoreAccounted (looks name key now) all = lookup_blob-AllAccounted name key now _ all
step-StoreAccounted (commits name key now a removable written w fit) all =
    commit-AllAccounted name key now a removable written _ all fit
step-StoreAccounted (publishes name key size now a removable written ns g w fit small) all =
    commit_named-AllAccounted name key size now a removable written ns _ all g fit small
step-StoreAccounted (invalidates name key written w) all =
    invalidate-AllAccounted name key written _ all

-- Where the file system answers sizes below 2^64, every sequence of lookups, commits (with any answers
-- of the file system, also those of a failure, and any blobs that an eviction cannot remove) and
-- invalidations keeps every namespace of a store accounted: `total_size` is the sum of the sizes of its
-- entries modulo 2^64, and no key has two entries.
pub steps-StoreAccounted :
    {Writes : Bool → Type 0} {s r : Store} → Steps Writes s r → StoreAccounted s → StoreAccounted r
steps-StoreAccounted none_yet all = all
steps-StoreAccounted (then_one before step) all =
    step-StoreAccounted step (steps-StoreAccounted before all)
