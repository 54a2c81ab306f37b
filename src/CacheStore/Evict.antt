-- ===== src/CacheStore/Evict.antt =====
-- What `evict_locked` and the accounting of `commit` (src/support/cache_store.cpp) guarantee.
use clice.Base.{
  u64, ℕ, ◌≤◌, ◌<◌, ◌≡◌, refl, sym, ◌∙◌, ap, subst, Bool, true, false, not, ◌||◌, none, some,
  String, Table, lookup, lookup-insert, eq_self, leb→le, if◌then◌else◌, leb, ◌==◌, nat_equality,
  string_equality, arith, Bool-cases, inl, inr, ◌⊎◌,
}
use clice.CacheStore.{
  lru, Entry, Namespace, is_lru, candidates, sort_candidates, evict_each, evict_locked, put_entry,
  account,
}
use clice.CacheStore.Account.{
  Accounted, pick, same_iff, put_entry-Accounted, candidates-lookup, candidates-NodupKeys,
  sort_candidates-lookup,
}
use clice.CacheStore.Account.Loop.{
  Evicts, evict_each-Evicts, evict_each-keeps, evict_each-budget, sorted-Names,
}

-- The keys that an eviction goes through.
abbrev queue : String → Namespace → Table String Entry
queue keep ns = sort_candidates (candidates keep ns.entries)

abbrev content : Bool → Namespace → (String → Bool) → String → Namespace
content skip ns removable keep =
    (if skip then (ns, false) else evict_each removable (queue keep ns) ns).0

-- The early return.
abbrev skips : Namespace → Bool
skips ns = not (is_lru ns.policy) || ((ns.max_bytes == 0) || leb ns.total_size ns.max_bytes)

evict_locked-content :
    (removable : String → Bool) (keep : String) (ns : Namespace)
    → (evict_locked removable keep ns).0 ≡ content (skips ns) ns removable keep
unfolding evict_locked
evict_locked-content removable keep ns = refl

skips-leb :
    (ns : Namespace)
    → ns.policy ≡ lru
    → 1 ≤ ns.max_bytes
    → skips ns ≡ leb ns.total_size ns.max_bytes
unfolding is_lru
skips-leb ns policy budget =
    rw policy (tail (ns.max_bytes == 0) (leb ns.total_size ns.max_bytes) (ground (arith, budget)))
  where
    tail : (z b : Bool) → z ≡ false → (z || b) ≡ b
    tail z b h = rw h refl

queue-lookup :
    (keep : String) (ns : Namespace) (k : String)
    → Accounted ns
    → lookup k (queue keep ns) ≡ (if k == keep then none else lookup k ns.entries)
queue-lookup keep ns k a =
    sort_candidates-lookup (candidates keep ns.entries) k
      (candidates-NodupKeys keep ns.entries a.nodup)
    ∙ candidates-lookup keep ns.entries k

pub evict_locked-Evicts :
    (removable : String → Bool) (keep : String) (ns : Namespace)
    → Accounted ns
    → Evicts ns (evict_locked removable keep ns).0
      × (lookup keep (evict_locked removable keep ns).0.entries ≡ lookup keep ns.entries)
evict_locked-Evicts removable keep ns a =
    subst (λ r. Evicts ns r × (lookup keep r.entries ≡ lookup keep ns.entries))
      (sym (evict_locked-content removable keep ns)) (either (skips ns))
  where
    either :
        (b : Bool)
        → Evicts ns (content b ns removable keep)
          × (lookup keep (content b ns removable keep).entries ≡ lookup keep ns.entries)
    either true =
        (record { accounted = a; policy = refl; max_bytes = refl; subset = λ k e h. h }, refl)
    either false = (
      evict_each-Evicts removable (queue keep ns) ns a (sorted-Names keep ns a),
      evict_each-keeps removable (queue keep ns) ns keep
          (queue-lookup keep ns keep a ∙ rw (eq_self keep) refl),
    )

-- An eviction of an accounted LRU namespace with a budget, where every blob can be removed, leaves it
-- within its budget, or with no entry but the one that it was told to keep.
pub evict_locked-budget :
    (keep : String) (ns : Namespace)
    → Accounted ns
    → ns.policy ≡ lru
    → 1 ≤ ns.max_bytes
    → ((evict_locked (λ k. true) keep ns).0.total_size ≤ ns.max_bytes)
      ⊎ ((k : String) (e : Entry)
          → lookup k (evict_locked (λ k. true) keep ns).0.entries ≡ some e
          → k ≡ keep)
evict_locked-budget keep ns a policy budget =
    subst
      (λ r.
        (r.total_size ≤ ns.max_bytes)
        ⊎ ((k : String) (e : Entry) → lookup k r.entries ≡ some e → k ≡ keep))
      (sym (
        evict_locked-content (λ k. true) keep ns
        ∙ ap (λ b. content b ns (λ k. true) keep) (skips-leb ns policy budget)))
      (elim (Bool-cases (leb ns.total_size ns.max_bytes)) [
        | inl fits ↦ rw fits (inl (leb→le ns.total_size ns.max_bytes fits))
        | inr over ↦
            rw over (elim (evict_each-budget (queue keep ns) ns a (sorted-Names keep ns a)) [
              | inl fits ↦ inl (leb→le _ ns.max_bytes fits)
              | inr gone ↦ inr (λ k e h. elim (Bool-cases (k == keep)) [
                | inl same ↦ (same_iff k keep).0 same
                | inr other ↦
                    absurd
                      (clash k e (gone k e (queue-lookup keep ns k a ∙ rw other (old k e h))) h)
              ])
            ])
      ])
  where
    left : Namespace
    left = (evict_each (λ k. true) (queue keep ns) ns).0

    old : (k : String) (e : Entry) → lookup k left.entries ≡ some e → lookup k ns.entries ≡ some e
    old k e h =
        (evict_each-Evicts (λ k. true) (queue keep ns) ns a (sorted-Names keep ns a)).subset k e h

    clash :
        (k : String) (e : Entry) → lookup k left.entries ≡ none → lookup k left.entries ≡ some e → ⊥
    clash k e none_there there = absurd (ground (arith, none_there, there))

-- What the accounting of `commit` does for a key.
pub record Accounts (key : String) (size stamp : ℕ) (ns r : Namespace) : Type 0 where
  pub accounted : Accounted r
  pub found : lookup key r.entries ≡ some (record { size = size; atime = stamp })
  pub subset :
      (k : String) (e : Entry)
      → lookup k r.entries ≡ some e
      → (key ≡ k) ⊎ (lookup k ns.entries ≡ some e)

put_entry-found :
    (key : String) (size stamp : ℕ) (ns : Namespace)
    → lookup key (put_entry key size stamp ns).entries
      ≡ some (record { size = size; atime = stamp })
unfolding put_entry
put_entry-found key size stamp ns = lookup-insert key key _ ns.entries ∙ rw (eq_self key) refl

put_entry-subset :
    (key : String) (size stamp : ℕ) (ns : Namespace) (k : String) (e : Entry)
    → lookup k (put_entry key size stamp ns).entries ≡ some e
    → (key ≡ k) ⊎ (lookup k ns.entries ≡ some e)
unfolding put_entry
put_entry-subset key size stamp ns k e h =
    elim (pick (key == k) _ (lookup k ns.entries) e (sym (lookup-insert key k _ ns.entries) ∙ h)) [
      | inl (same, new) ↦ inl ((same_iff key k).0 same)
      | inr (other, old) ↦ inr old
    ]

-- Publishing a blob of fewer than 2^64 bytes in an accounted namespace keeps `total_size` the sum of
-- the sizes of the entries modulo 2^64, through the eviction that it may cause; the blob has its size
-- and its time stamp, is not evicted, and no entry appears that was not there.
pub account-Accounts :
    (key : String) (size stamp : ℕ) (removable : String → Bool) (ns : Namespace)
    → Accounted ns
    → size < u64
    → Accounts key size stamp ns (account key size stamp removable ns)
unfolding account
account-Accounts key size stamp removable ns a fits =
    either (is_lru (put_entry key size stamp ns).policy)
  where
    put : Namespace
    put = put_entry key size stamp ns

    either :
        (b : Bool)
        → Accounts key size stamp ns (if b then (evict_locked removable key put).0 else put)
    either false = record {
      accounted = put_entry-Accounted key size stamp ns a fits;
      found = put_entry-found key size stamp ns;
      subset = put_entry-subset key size stamp ns;
    }
    either true =
        let (v, kept) =
          evict_locked-Evicts removable key put (put_entry-Accounted key size stamp ns a fits) in
        record {
          accounted = v.accounted;
          found = kept ∙ put_entry-found key size stamp ns;
          subset = λ k e h. put_entry-subset key size stamp ns k e (v.subset k e h);
        }
