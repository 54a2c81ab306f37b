-- ===== src/CacheStore/Steps/Checkpoint.antt =====
-- What the operations of src/support/cache_store.cpp leave for a checkpoint.
use clice.Base.{
  ℕ, ◌+◌, ◌%◌, max, ◌<◌, ◌≡◌, refl, sym, subst, Bool, true, false, Option, none, some, String,
  lookup, insert, if◌then◌else◌, leb, ◌||◌, u32, nat_equality, string_equality, arith,
}
use clice.CacheStore.{
  CachePolicy, lru, persistent, scratch, is_scratch, Entry, Namespace, Store, erase_entry,
  lookup_blob, next_stamp, CommitAnswers, published, drop_lost, account, count_change,
  checkpoint_locked, maybe_checkpoint, invalidate, commit_named, commit,
}
use clice.CacheStore.Steps.{Step, Steps, looks, commits, publishes, invalidates, none_yet, then_one}

-- A store that is dirty if it has changes since its checkpoint, and has fewer than the checkpoint interval.
pub record Pending (s : Store) : Type 0 where
  pub flagged : (s.dirty ≡ false) → s.changes_since_checkpoint ≡ 0
  pub few : s.changes_since_checkpoint < 16

-- The changes that a published blob, or a removed entry, is for the manifest.
unfoldable pub recorded : CachePolicy → ℕ
recorded lru = 1
recorded persistent = 1
recorded scratch = 0

unfoldable pub publication : Option Namespace → Bool → ℕ
unfolding recorded
publication none b = 0
publication (some ns) false = 0
publication (some ns) true = recorded ns.policy

unfoldable pub removed_entry : CachePolicy → Option Entry → ℕ
unfolding recorded
removed_entry policy none = 0
removed_entry policy (some entry) = recorded policy

unfoldable pub removal : String → Option Namespace → ℕ
unfolding removed_entry
removal key none = 0
removal key (some ns) = removed_entry ns.policy (lookup key ns.entries)

unfoldable pub step_changes : {Writes : Bool → Type 0} (s : Store) {r : Store} → Step Writes s r → ℕ
unfolding publication removal
step_changes s (looks name key now) = 0
step_changes s (commits name key now a removable written w fit) =
    publication (lookup name s.namespaces) (commit name key now a removable written s).1
step_changes s (publishes name key size now a removable written ns g w fit small) =
    publication (some ns) (commit_named name key size now a removable written ns s).1
step_changes s (invalidates name key written w) = removal key (lookup name s.namespaces)

unfoldable pub steps_changes : {Writes : Bool → Type 0} {s r : Store} → Steps Writes s r → ℕ
unfolding step_changes
steps_changes none_yet = 0
steps_changes (then_one before step) = steps_changes before + step_changes _ step

-- From `s` to `r`, `n` changes were made.
pub record Counts (n : ℕ) (s r : Store) : Type 0 where
  pub pending : Pending r
  pub total : r.changes_since_checkpoint ≡ (s.changes_since_checkpoint + n) % 16

unchanged : (s : Store) → Pending s → Counts 0 s s
unchanged s p = record { pending = p; total = omega (arith, p.few) }

-- The counter is all that a change reads of the store before it.
moved :
    (n : ℕ) (s s' r : Store)
    → s'.changes_since_checkpoint ≡ s.changes_since_checkpoint
    → Counts n s' r
    → Counts n s r
moved n s s' r e c = record { pending = c.pending; total = omega (arith, c.total, e) }

counted :
    (policy : CachePolicy) (s : Store)
    → Pending s
    → Counts (recorded policy) s (maybe_checkpoint true (count_change policy s))
unfolding maybe_checkpoint checkpoint_locked count_change is_scratch recorded
counted policy s p = by_policy policy
  where
    saved :
        (b : Bool)
        → leb 16 ((s.changes_since_checkpoint + 1) % u32) ≡ b
        → Counts 1 s (maybe_checkpoint true (count_change lru s))
    saved true h =
        rw (h, maybe_checkpoint)
          (record {
            pending = record { flagged = λ e. refl; few = omega arith };
            total = ground (arith, h, p.few);
          })
    saved false h =
        rw (h, maybe_checkpoint)
          (record {
            pending = record { flagged = λ e. absurd (ground (arith, e)); few = ground (arith, h) };
            total = ground (arith, h, p.few);
          })

    still :
        (b : Bool) → leb 16 s.changes_since_checkpoint ≡ b → Counts 0 s (maybe_checkpoint true s)
    still true h = absurd (ground (arith, h, p.few))
    still false h = rw (h, maybe_checkpoint) (unchanged s p)

    by_policy : (q : CachePolicy) → Counts (recorded q) s (maybe_checkpoint true (count_change q s))
    by_policy lru = saved _ refl
    by_policy persistent = saved _ refl
    by_policy scratch = still _ refl

invalidate-Counts :
    (name key : String) (s : Store)
    → Pending s
    → Counts (removal key (lookup name s.namespaces)) s (invalidate name key true s)
unfolding invalidate removal removed_entry
invalidate-Counts name key s p = with_namespace (lookup name s.namespaces) refl
  where
    keep :
        (n : ℕ) (r : Store)
        → removal key (lookup name s.namespaces) ≡ n
        → invalidate name key true s ≡ r
        → Counts n s r
        → Counts (removal key (lookup name s.namespaces)) s (invalidate name key true s)
    keep n r f e c =
        subst (λ k. Counts k s (invalidate name key true s)) (sym f)
          (subst (λ (q : Store). Counts n s q) (sym e) c)

    with_entry :
        (ns : Namespace) (o : Option Entry)
        → lookup name s.namespaces ≡ some ns
        → lookup key ns.entries ≡ o
        → Counts (removal key (lookup name s.namespaces)) s (invalidate name key true s)
    with_entry ns none g h = keep 0 s (rw (g, h) refl) (rw (g, h, invalidate) refl) (unchanged s p)
    with_entry ns (some entry) g h =
        let s' = record s {
          namespaces = insert name (erase_entry key entry.size ns) s.namespaces;
        } in
        keep (recorded ns.policy) (maybe_checkpoint true (count_change ns.policy s'))
          (rw (g, h) refl) (rw (g, h, invalidate) refl)
          (moved (recorded ns.policy) s s' _ refl
            (counted ns.policy s' (record { flagged = p.flagged; few = p.few })))

    with_namespace :
        (o : Option Namespace)
        → lookup name s.namespaces ≡ o
        → Counts (removal key (lookup name s.namespaces)) s (invalidate name key true s)
    with_namespace none h = keep 0 s (rw h refl) (rw (h, invalidate) refl) (unchanged s p)
    with_namespace (some ns) h = with_entry ns (lookup key ns.entries) h refl

lookup_blob-Counts :
    (name key : String) (now : ℕ) (s : Store)
    → Pending s
    → Counts 0 s (lookup_blob name key now s).0
unfolding lookup_blob next_stamp
lookup_blob-Counts name key now s p = with_namespace (lookup name s.namespaces) refl
  where
    keep :
        (r : Store × Bool)
        → lookup_blob name key now s ≡ r
        → Counts 0 s r.0
        → Counts 0 s (lookup_blob name key now s).0
    keep r e = subst (λ (q : Store × Bool). Counts 0 s q.0) (sym e)

    with_entry :
        (ns : Namespace) (o : Option Entry)
        → lookup name s.namespaces ≡ some ns
        → lookup key ns.entries ≡ o
        → Counts 0 s (lookup_blob name key now s).0
    with_entry ns none g h = keep (s, false) (rw (g, h, lookup_blob) refl) (unchanged s p)
    with_entry ns (some entry) g h =
        let stamp = max now (s.last_stamp + 1) in
        let ns' = record ns { entries = insert key (record entry { atime = stamp }) ns.entries } in
        let s' = record s {
          last_stamp = stamp;
          namespaces = insert name ns' s.namespaces;
          dirty = true;
        } in
        keep (s', true) (rw (g, h, lookup_blob) refl)
          (moved 0 s s' s' refl
            (unchanged s' (record { flagged = λ e. absurd (ground (arith, e)); few = p.few })))

    with_namespace :
        (o : Option Namespace)
        → lookup name s.namespaces ≡ o
        → Counts 0 s (lookup_blob name key now s).0
    with_namespace none h = keep (s, false) (rw (h, lookup_blob) refl) (unchanged s p)
    with_namespace (some ns) h = with_entry ns (lookup key ns.entries) h refl

-- What `commit` answers is counted where it published.
abbrev Published : Option Namespace → Store → Store × Bool → Type 0
Published o s q = Counts (publication o q.1) s q.0

commit_named-Counts :
    (name key : String) (size now : ℕ) (a : CommitAnswers) (removable : String → Bool)
    (ns : Namespace) (s : Store)
    → Pending s
    → Counts
        (publication (some ns) (commit_named name key size now a removable true ns s).1)
        s
        (commit_named name key size now a removable true ns s).0
unfolding commit_named next_stamp insert drop_lost publication
commit_named-Counts name key size now a removable ns s p =
    by_outcome (published size a) a.same_content refl refl
  where
    still_dirty : (d l : Bool) → (d || l) ≡ false → d ≡ false
    still_dirty d l e = ground (arith, e)

    by_outcome :
        (o : Option ℕ) (same : Bool)
        → published size a ≡ o
        → a.same_content ≡ same
        → Published (some ns) s (commit_named name key size now a removable true ns s)
    by_outcome (some n) same h k =
        let stamp = max now (s.last_stamp + 1) in
        let ns' = account key n stamp removable ns in
        let s' = record s { last_stamp = stamp; namespaces = insert name ns' s.namespaces } in
        let r = maybe_checkpoint true (count_change ns.policy s') in
        let e : commit_named name key size now a removable true ns s ≡ (r, true) =
          rw (h, commit_named) refl in
        subst (Published (some ns) s) (sym e) (
          moved (recorded ns.policy) s s' r refl
            (counted ns.policy s' (record { flagged = p.flagged; few = p.few })))
    by_outcome none true h k =
        let e : commit_named name key size now a removable true ns s ≡ (s, false) =
          rw (h, k, commit_named) refl in
        subst (Published (some ns) s) (sym e) (unchanged s p)
    by_outcome none false h k =
        let lost = drop_lost key a ns in
        let s' = record s {
          namespaces = insert name lost.0 s.namespaces;
          dirty = s.dirty || lost.1;
        } in
        let e : commit_named name key size now a removable true ns s ≡ (s', false) =
          rw (h, k, commit_named) refl in
        subst (Published (some ns) s) (sym e) (
          moved 0 s s' s' refl (
            unchanged s'
              (record { flagged = λ e. p.flagged (still_dirty s.dirty lost.1 e); few = p.few })))

publication-false : (o : Option Namespace) → publication o false ≡ 0
unfolding publication
publication-false none = refl
publication-false (some ns) = refl

commit-Counts :
    (name key : String) (now : ℕ) (a : CommitAnswers) (removable : String → Bool) (s : Store)
    → Pending s
    → Counts
        (publication (lookup name s.namespaces) (commit name key now a removable true s).1)
        s
        (commit name key now a removable true s).0
unfolding commit
commit-Counts name key now a removable s p =
    with_status a.tmp_size (lookup name s.namespaces) refl refl
  where
    refused : Published (lookup name s.namespaces) s (s, false)
    refused =
        subst (λ n. Counts n s s) (sym (publication-false (lookup name s.namespaces)))
          (unchanged s p)

    flushed :
        (b : Bool) (r : Store × Bool)
        → Published (lookup name s.namespaces) s r
        → Published (lookup name s.namespaces) s (if b then r else (s, false))
    flushed true r kept = kept
    flushed false r kept = refused

    with_status :
        (o : Option ℕ) (q : Option Namespace)
        → a.tmp_size ≡ o
        → lookup name s.namespaces ≡ q
        → Published (lookup name s.namespaces) s (commit name key now a removable true s)
    with_status none q h g =
        let e : commit name key now a removable true s ≡ (s, false) = rw (h, commit) refl in
        subst (Published (lookup name s.namespaces) s) (sym e) refused
    with_status (some size) none h g =
        let e : commit name key now a removable true s ≡ (s, false) = rw (h, g, commit) refl in
        subst (Published (lookup name s.namespaces) s) (sym e) refused
    with_status (some size) (some ns) h g =
        let named = commit_named name key size now a removable true ns s in
        let b = is_scratch ns.policy || a.synced in
        let e : commit name key now a removable true s ≡ (if b then named else (s, false)) =
          rw (h, g, commit) refl in
        subst (Published (lookup name s.namespaces) s) (sym e) (
          flushed b named (
            subst (λ o. Counts (publication o named.1) s named.0) (sym g)
              (commit_named-Counts name key size now a removable ns s p)))

-- A checkpoint succeeds where it is tried.
abbrev pub Succeeds : Bool → Type 0
Succeeds written = written ≡ true

step-Counts :
    (s : Store) {r : Store} (step : Step Succeeds s r)
    → Pending s
    → Counts (step_changes s step) s r
unfolding step_changes
step-Counts s (looks name key now) p = lookup_blob-Counts name key now s p
step-Counts s (commits name key now a removable written w fit) p =
    subst
      (λ b.
        Counts (publication (lookup name s.namespaces) (commit name key now a removable b s).1) s
          (commit name key now a removable b s).0)
      (sym w) (commit-Counts name key now a removable s p)
step-Counts s (publishes name key size now a removable written ns g w fit small) p =
    subst
      (λ b.
        Counts (publication (some ns) (commit_named name key size now a removable b ns s).1) s
          (commit_named name key size now a removable b ns s).0)
      (sym w) (commit_named-Counts name key size now a removable ns s p)
step-Counts s (invalidates name key written w) p =
    subst (λ b. Counts (removal key (lookup name s.namespaces)) s (invalidate name key b s)) (sym w)
      (invalidate-Counts name key s p)

then_more : (n m : ℕ) (s t r : Store) → Counts n s t → Counts m t r → Counts (n + m) s r
then_more n m s t r c d = record { pending = d.pending; total = omega (arith, c.total, d.total) }

-- Where every checkpoint that is tried succeeds, and a store starts with fewer than 16 changes since its
-- checkpoint, and dirty if it has any, a sequence of lookups, commits and invalidations leaves it so, and
-- its counter is, modulo 16, the one at the start and the number of the changes: a published blob or an
-- entry that invalidate removes, of a namespace that is not scratch, is one, and nothing else is.
pub steps-Counts :
    {s r : Store} (steps : Steps Succeeds s r) → Pending s → Counts (steps_changes steps) s r
unfolding steps_changes
steps-Counts none_yet p = unchanged _ p
steps-Counts (then_one {t = t} before step) p =
    let c = steps-Counts before p in
    then_more (steps_changes before) (step_changes t step) _ t _ c (step-Counts t step c.pending)
