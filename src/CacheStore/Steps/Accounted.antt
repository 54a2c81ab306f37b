-- ===== src/CacheStore/Steps/Accounted.antt =====
-- The accounting of src/support/cache_store.cpp for every namespace of a store: each operation.
use clice.Base.{
  u64, ℕ, ◌+◌, max, ◌<◌, ◌≡◌, refl, sym, ◌∙◌, ap, subst, Bool, true, false, Option, none, some,
  String, Table, lookup, insert, lookup-insert, insert-NodupKeys, value, total-insert,
  if◌then◌else◌, leb, ◌==◌, ◌&&◌, ◌||◌, nat_equality, string_equality, arith, inl, inr,
}
use clice.CacheStore.{
  CachePolicy, lru, persistent, scratch, is_scratch, Entry, Namespace, Store, erase_entry,
  lookup_blob, next_stamp, CommitAnswers, published, drop_lost, account, count_change,
  checkpoint_locked, maybe_checkpoint, invalidate, commit_named, commit,
}
use clice.CacheStore.Account.{entry_size, Accounted, pick, erase_entry-Accounted}
use clice.CacheStore.Evict.{account-Accounts}
use clice.CacheStore.Steps.{SizesFit}

abbrev pub AllAccounted : Table String Namespace → Type 0
AllAccounted m = (name : String) (ns : Namespace) → lookup name m ≡ some ns → Accounted ns

abbrev pub StoreAccounted : Store → Type 0
StoreAccounted s = AllAccounted s.namespaces

insert-AllAccounted :
    (name : String) (ns : Namespace) (m : Table String Namespace)
    → Accounted ns
    → AllAccounted m
    → AllAccounted (insert name ns m)
insert-AllAccounted name ns m a all k r h =
    elim (pick (name == k) (some ns) (lookup k m) r (sym (lookup-insert name k ns m) ∙ h)) [
      | inl (same, new) ↦ renamed (some_value new)
      | inr (other, old) ↦ all k r old
    ]
  where
    some_value : some ns ≡ some r → ns ≡ r
    some_value e = ground (arith, e)

    renamed : ns ≡ r → Accounted r
    renamed e = subst Accounted e a

count_change-namespaces :
    (policy : CachePolicy) (s : Store) → (count_change policy s).namespaces ≡ s.namespaces
unfolding count_change is_scratch
count_change-namespaces lru s = refl
count_change-namespaces persistent s = refl
count_change-namespaces scratch s = refl

maybe_checkpoint-namespaces :
    (written : Bool) (s : Store) → (maybe_checkpoint written s).namespaces ≡ s.namespaces
unfolding maybe_checkpoint checkpoint_locked
maybe_checkpoint-namespaces written s =
    cases (leb 16 s.changes_since_checkpoint) (s.dirty && written)
  where
    cases :
        (b c : Bool)
        → (if b
            then (if c then record s { dirty = false; changes_since_checkpoint = 0 } else s)
            else s).namespaces
          ≡ s.namespaces
    cases true true = refl
    cases true false = refl
    cases false c = refl

finished :
    (policy : CachePolicy) (written : Bool) (s : Store)
    → AllAccounted s.namespaces
    → AllAccounted (maybe_checkpoint written (count_change policy s)).namespaces
finished policy written s all =
    subst AllAccounted
      (sym (maybe_checkpoint-namespaces written _ ∙ count_change-namespaces policy s)) all

published_small :
    (size : ℕ) (a : CommitAnswers) (n : ℕ)
    → size < u64
    → SizesFit a
    → published size a ≡ some n
    → n < u64
unfolding published
published_small size a n small fit h = ground (arith, h, fit.final n, small)

pub invalidate-AllAccounted :
    (name key : String) (written : Bool) (s : Store)
    → StoreAccounted s
    → StoreAccounted (invalidate name key written s)
unfolding invalidate
invalidate-AllAccounted name key written s all = with_namespace (lookup name s.namespaces) refl
  where
    keep :
        (r : Store)
        → (invalidate name key written s) ≡ r
        → StoreAccounted r
        → StoreAccounted (invalidate name key written s)
    keep r e = subst StoreAccounted (sym e)

    with_entry :
        (ns : Namespace) (o : Option Entry)
        → lookup name s.namespaces ≡ some ns
        → lookup key ns.entries ≡ o
        → StoreAccounted (invalidate name key written s)
    with_entry ns none g h = keep s (rw (g, h, invalidate) refl) all
    with_entry ns (some entry) g h =
        let s' = record s {
          namespaces = insert name (erase_entry key entry.size ns) s.namespaces;
        } in
        keep (maybe_checkpoint written (count_change ns.policy s')) (rw (g, h, invalidate) refl) (
          finished ns.policy written s' (
            insert-AllAccounted name (erase_entry key entry.size ns) s.namespaces
              (erase_entry-Accounted key entry ns (all name ns g) h) all))

    with_namespace :
        (o : Option Namespace)
        → lookup name s.namespaces ≡ o
        → StoreAccounted (invalidate name key written s)
    with_namespace none h = keep s (rw (h, invalidate) refl) all
    with_namespace (some ns) h = with_entry ns (lookup key ns.entries) h refl

drop_lost-Accounted :
    (key : String) (a : CommitAnswers) (ns : Namespace)
    → Accounted ns
    → Accounted (drop_lost key a ns).0
unfolding drop_lost
drop_lost-Accounted key a ns acc = with_entry (lookup key ns.entries) a.final_size refl refl
  where
    keep :
        (r : Namespace × Bool)
        → (drop_lost key a ns) ≡ r
        → Accounted r.0
        → Accounted (drop_lost key a ns).0
    keep r e = subst (λ (p : Namespace × Bool). Accounted p.0) (sym e)

    with_entry :
        (o : Option Entry) (f : Option ℕ)
        → lookup key ns.entries ≡ o
        → a.final_size ≡ f
        → Accounted (drop_lost key a ns).0
    with_entry none f h g = keep (ns, false) (rw (h, drop_lost) refl) acc
    with_entry (some entry) none h g =
        keep (erase_entry key entry.size ns, true) (rw (h, g, drop_lost) refl)
          (erase_entry-Accounted key entry ns acc h)
    with_entry (some entry) (some size) h g = keep (ns, false) (rw (h, g, drop_lost) refl) acc

touched-Accounted :
    (key : String) (stamp : ℕ) (entry : Entry) (ns : Namespace)
    → Accounted ns
    → lookup key ns.entries ≡ some entry
    → Accounted (record ns { entries = insert key (record entry { atime = stamp }) ns.entries })
touched-Accounted key stamp entry ns a h = record {
  sum = omega (
    arith,
    a.sum,
    total-insert entry_size key (record entry { atime = stamp }) ns.entries,
    ap (value entry_size) h,
  );
  small = λ k e g.
      elim (pick (key == k) _ (lookup k ns.entries) e
        (sym (lookup-insert key k _ ns.entries) ∙ g)) [
          | inl (same, new) ↦ rw (sym (ap (value entry_size) new)) (a.small key entry h)
          | inr (other, old) ↦ a.small k e old
        ];
  nodup = insert-NodupKeys key _ ns.entries a.nodup;
}

pub lookup_blob-AllAccounted :
    (name key : String) (now : ℕ) (s : Store)
    → StoreAccounted s
    → StoreAccounted (lookup_blob name key now s).0
unfolding lookup_blob next_stamp
lookup_blob-AllAccounted name key now s all = with_namespace (lookup name s.namespaces) refl
  where
    keep :
        (r : Store × Bool)
        → (lookup_blob name key now s) ≡ r
        → StoreAccounted r.0
        → StoreAccounted (lookup_blob name key now s).0
    keep r e = subst (λ (p : Store × Bool). StoreAccounted p.0) (sym e)

    with_entry :
        (ns : Namespace) (o : Option Entry)
        → lookup name s.namespaces ≡ some ns
        → lookup key ns.entries ≡ o
        → StoreAccounted (lookup_blob name key now s).0
    with_entry ns none g h = keep (s, false) (rw (g, h, lookup_blob) refl) all
    with_entry ns (some entry) g h =
        let stamp = max now (s.last_stamp + 1) in
        let ns' = record ns { entries = insert key (record entry { atime = stamp }) ns.entries } in
        let s' = record s {
          last_stamp = stamp;
          namespaces = insert name ns' s.namespaces;
          dirty = true;
        } in
        keep (s', true) (rw (g, h, lookup_blob) refl)
          (insert-AllAccounted name ns' s.namespaces
            (touched-Accounted key stamp entry ns (all name ns g) h) all)

    with_namespace :
        (o : Option Namespace)
        → lookup name s.namespaces ≡ o
        → StoreAccounted (lookup_blob name key now s).0
    with_namespace none h = keep (s, false) (rw (h, lookup_blob) refl) all
    with_namespace (some ns) h = with_entry ns (lookup key ns.entries) h refl

pub commit_named-AllAccounted :
    (name key : String) (size now : ℕ) (a : CommitAnswers) (removable : String → Bool)
    (written : Bool) (ns : Namespace) (s : Store)
    → StoreAccounted s
    → lookup name s.namespaces ≡ some ns
    → SizesFit a
    → size < u64
    → StoreAccounted (commit_named name key size now a removable written ns s).0
unfolding commit_named next_stamp insert drop_lost
commit_named-AllAccounted name key size now a removable written ns s all g fit small =
    by_outcome (published size a) a.same_content refl refl
  where
    keep :
        (r : Store × Bool)
        → (commit_named name key size now a removable written ns s) ≡ r
        → StoreAccounted r.0
        → StoreAccounted (commit_named name key size now a removable written ns s).0
    keep r e = subst (λ (p : Store × Bool). StoreAccounted p.0) (sym e)

    fits : (o : Option ℕ) (n : ℕ) → published size a ≡ o → o ≡ some n → n < u64
    fits o n h e = published_small size a n small fit (h ∙ e)

    by_outcome :
        (o : Option ℕ) (same : Bool)
        → published size a ≡ o
        → a.same_content ≡ same
        → StoreAccounted (commit_named name key size now a removable written ns s).0
    by_outcome (some n) same h k =
        let stamp = max now (s.last_stamp + 1) in
        let ns' = account key n stamp removable ns in
        let s' = record s { last_stamp = stamp; namespaces = insert name ns' s.namespaces } in
        keep (maybe_checkpoint written (count_change ns.policy s'), true)
          (rw (h, commit_named) refl)
          (finished ns.policy written s' (
            insert-AllAccounted name ns' s.namespaces
              (account-Accounts key n stamp removable ns (all name ns g)
                (fits (some n) n h refl)).accounted
              all))
    by_outcome none true h k = keep (s, false) (rw (h, k, commit_named) refl) all
    by_outcome none false h k =
        let lost = drop_lost key a ns in
        let s' = record s {
          namespaces = insert name lost.0 s.namespaces;
          dirty = s.dirty || lost.1;
        } in
        keep (s', false) (rw (h, k, commit_named) refl)
          (insert-AllAccounted name lost.0 s.namespaces
            (drop_lost-Accounted key a ns (all name ns g)) all)

pub commit-AllAccounted :
    (name key : String) (now : ℕ) (a : CommitAnswers) (removable : String → Bool) (written : Bool)
    (s : Store)
    → StoreAccounted s
    → SizesFit a
    → StoreAccounted (commit name key now a removable written s).0
unfolding commit
commit-AllAccounted name key now a removable written s all fit =
    with_status a.tmp_size (lookup name s.namespaces) refl refl
  where
    keep :
        (r : Store × Bool)
        → commit name key now a removable written s ≡ r
        → StoreAccounted r.0
        → StoreAccounted (commit name key now a removable written s).0
    keep r e = subst (λ (p : Store × Bool). StoreAccounted p.0) (sym e)

    flushed :
        (b : Bool) (r : Store × Bool)
        → StoreAccounted r.0
        → StoreAccounted (if b then r else (s, false)).0
    flushed true r kept = kept
    flushed false r kept = all

    with_status :
        (o : Option ℕ) (p : Option Namespace)
        → a.tmp_size ≡ o
        → lookup name s.namespaces ≡ p
        → StoreAccounted (commit name key now a removable written s).0
    with_status none p h g = keep (s, false) (rw (h, commit) refl) all
    with_status (some size) none h g = keep (s, false) (rw (h, g, commit) refl) all
    with_status (some size) (some ns) h g =
        let named = commit_named name key size now a removable written ns s in
        let b = is_scratch ns.policy || a.synced in
        keep (if b then named else (s, false)) (rw (h, g, commit) refl) (
          flushed b named (
            commit_named-AllAccounted name key size now a removable written ns s all g fit
              (fit.tmp size h)))
