-- ===== src/CacheStore.antt =====
-- src/support/cache_store.cpp: the state of the store in memory. What the file system answers to the
-- calls of an operation is an argument of it, in a record with one field for each call; so are the
-- clock and whether a blob can be removed.
pub mod Account
pub mod Evict
pub mod Steps
pub mod Samples
use clice.Base.{
  u32, u64, ℕ, ◌+◌, ◌-◌, ◌%◌, max, Bool, true, false, not, ◌&&◌, ◌||◌, Option, none, some, List, [],
  ◌∷◌, ◌++◌, String, Table, lookup, insert, erase, adjust, if◌then◌else◌, leb, ◌==◌, nat_equality,
  string_equality,
}

pub data CachePolicy : Type 0 where
  lru persistent scratch : CachePolicy

-- `State::Entry`.
pub record Entry : Type 0 where
  pub size : ℕ
  pub atime : ℕ

-- `State::Namespace`, with the members of its `CacheNamespace` that the accounting reads.
pub record Namespace : Type 0 where
  pub policy : CachePolicy
  pub max_bytes : ℕ
  pub entries : Table String Entry
  pub total_size : ℕ

pub record Store : Type 0 where
  pub namespaces : Table String Namespace
  pub changes_since_checkpoint : ℕ
  pub dirty : Bool
  pub last_stamp : ℕ

unfoldable pub is_lru : CachePolicy → Bool
is_lru lru = true
is_lru persistent = false
is_lru scratch = false

unfoldable pub is_scratch : CachePolicy → Bool
is_scratch lru = false
is_scratch persistent = false
is_scratch scratch = true

-- `next_stamp`, at the time `now`.
unfoldable pub next_stamp : ℕ → Store → Store
next_stamp now s = record s { last_stamp = max now (s.last_stamp + 1) }

-- `CacheStore::lookup`: true for a hit.
unfoldable pub lookup_blob : String → String → ℕ → Store → Store × Bool
unfolding next_stamp
lookup_blob name key now s = elim (lookup name s.namespaces) [
  | none ↦ (s, false)
  | some ns ↦ elim (lookup key ns.entries) [
    | none ↦ (s, false)
    | some entry ↦
        let s' = next_stamp now s in
        let ns' = record ns {
          entries = insert key (record entry { atime = s'.last_stamp }) ns.entries;
        } in
        (record s' { namespaces = insert name ns' s'.namespaces; dirty = true }, true)
  ]
]

-- `total_size -= size; entries.erase(key)`.
unfoldable pub erase_entry : String → ℕ → Namespace → Namespace
erase_entry key size ns = record ns {
  total_size = (ns.total_size + u64 - size) % u64;
  entries = erase key ns.entries;
}

-- The candidates of an eviction.
unfoldable pub candidates : String → Table String Entry → Table String Entry
candidates keep [] = []
candidates keep ((key, entry) ∷ rest) =
    if key == keep then candidates keep rest else (key, entry) ∷ candidates keep rest

-- `std::ranges::sort` by `atime`.
unfoldable pub insert_candidate : String → Entry → Table String Entry → Table String Entry
insert_candidate key entry [] = (key, entry) ∷ []
insert_candidate key entry ((k, e) ∷ rest) =
    if leb entry.atime e.atime
    then (key, entry) ∷ (k, e) ∷ rest
    else (k, e) ∷ insert_candidate key entry rest

unfoldable pub sort_candidates : Table String Entry → Table String Entry
unfolding insert_candidate
sort_candidates [] = []
sort_candidates ((key, entry) ∷ rest) = insert_candidate key entry (sort_candidates rest)

-- The loop of `evict_locked`; true if a blob went.
unfoldable pub evict_each : (String → Bool) → Table String Entry → Namespace → Namespace × Bool
unfolding erase_entry
evict_each removable [] ns = (ns, false)
evict_each removable ((key, entry) ∷ rest) ns =
    let kept = evict_each removable rest ns in
    let gone = evict_each removable rest (erase_entry key entry.size ns) in
    if leb ns.total_size ns.max_bytes
    then (ns, false)
    else if removable key
    then (gone.0, true)
    else kept

-- `evict_locked`.
unfoldable pub evict_locked : (String → Bool) → String → Namespace → Namespace × Bool
unfolding is_lru candidates sort_candidates evict_each
evict_locked removable keep ns =
    if not (is_lru ns.policy) || ((ns.max_bytes == 0) || leb ns.total_size ns.max_bytes)
    then (ns, false)
    else evict_each removable (sort_candidates (candidates keep ns.entries)) ns

-- The size that is accounted for a key; a new entry has size zero.
unfoldable pub size_of : String → Table String Entry → ℕ
size_of key entries = elim (lookup key entries) [ none ↦ 0 | some entry ↦ entry.size ]

-- `entries[key]`, the new size and the time stamp.
unfoldable pub put_entry : String → ℕ → ℕ → Namespace → Namespace
unfolding size_of
put_entry key size stamp ns = record ns {
  total_size = (ns.total_size + (size + u64 - size_of key ns.entries) % u64) % u64;
  entries = insert key (record { size = size; atime = stamp }) ns.entries;
}

-- What the file system answers to `commit`, in the order of the calls.
pub record CommitAnswers : Type 0 where
  pub tmp_size : Option ℕ
  pub synced : Bool
  pub renamed : Bool
  pub same_content : Bool
  pub final_size : Option ℕ
  pub retried : Bool

-- The part of `commit` that publishes: the size of the blob that is there, or nothing.
unfoldable pub published : ℕ → CommitAnswers → Option ℕ
published size a =
    if a.renamed
    then some size
    else if a.same_content
    then a.final_size
    else if a.retried
    then some size
    else none

-- A failed retry whose old blob is gone drops the entry.
unfoldable pub drop_lost : String → CommitAnswers → Namespace → Namespace × Bool
unfolding erase_entry
drop_lost key a ns = elim (lookup key ns.entries) [
  | none ↦ (ns, false)
  | some entry ↦ elim a.final_size [
    | some size ↦ (ns, false)
    | none ↦ (erase_entry key entry.size ns, true)
  ]
]

-- The accounting of `commit` for a published blob.
unfoldable pub account : String → ℕ → ℕ → (String → Bool) → Namespace → Namespace
unfolding put_entry is_lru evict_locked
account key size stamp removable ns =
    let ns' = put_entry key size stamp ns in
    if is_lru ns'.policy then (evict_locked removable key ns').0 else ns'

unfoldable pub count_change : CachePolicy → Store → Store
unfolding is_scratch
count_change policy s = if is_scratch policy then s else record s {
  dirty = true;
  changes_since_checkpoint = (s.changes_since_checkpoint + 1) % u32;
}

-- `checkpoint_locked`: the manifest was written, or not.
unfoldable pub checkpoint_locked : Bool → Store → Store
checkpoint_locked written s =
    if s.dirty && written then record s { dirty = false; changes_since_checkpoint = 0 } else s

-- `maybe_checkpoint`, with `checkpoint_interval`.
unfoldable pub maybe_checkpoint : Bool → Store → Store
unfolding checkpoint_locked
maybe_checkpoint written s =
    if leb 16 s.changes_since_checkpoint then checkpoint_locked written s else s

-- `CacheStore::invalidate`.
unfoldable pub invalidate : String → String → Bool → Store → Store
unfolding erase_entry count_change maybe_checkpoint
invalidate name key written s = elim (lookup name s.namespaces) [
  | none ↦ s
  | some ns ↦ elim (lookup key ns.entries) [
    | none ↦ s
    | some entry ↦ maybe_checkpoint written (
        count_change ns.policy
          (record s { namespaces = insert name (erase_entry key entry.size ns) s.namespaces }))
  ]
]

-- The part of `commit` behind the flush, for a namespace that is there.
unfoldable pub commit_named :
    String
    → String
    → ℕ
    → ℕ
    → CommitAnswers
    → (String → Bool)
    → Bool
    → Namespace
    → Store
    → Store × Bool
unfolding published drop_lost account count_change maybe_checkpoint next_stamp
commit_named name key size now a removable written ns s = elim (published size a) [
  | some size' ↦
      let s' = next_stamp now s in
      let ns' = account key size' s'.last_stamp removable ns in
      (
        maybe_checkpoint written
            (count_change ns.policy (record s' { namespaces = insert name ns' s'.namespaces })),
        true,
      )
  | none ↦
      if a.same_content
      then (s, false)
      else (let lost = drop_lost key a ns in
          (
            record s { namespaces = insert name lost.0 s.namespaces; dirty = s.dirty || lost.1 },
            false,
          ))
]

-- `CacheStore::commit`: true for a published blob.
unfoldable pub commit :
    String → String → ℕ → CommitAnswers → (String → Bool) → Bool → Store → Store × Bool
unfolding commit_named is_scratch
commit name key now a removable written s = elim a.tmp_size [
  | none ↦ (s, false)
  | some size ↦ elim (lookup name s.namespaces) [
    | none ↦ (s, false)
    | some ns ↦
        if is_scratch ns.policy || a.synced
        then commit_named name key size now a removable written ns s
        else (s, false)
  ]
]
