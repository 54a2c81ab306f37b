-- ===== src/CacheStore/Account.antt =====
-- The accounting of src/support/cache_store.cpp: `total_size` is the sum of the sizes of the entries.
pub mod Loop
use clice.Base.{
  u64, ℕ, ◌%◌, ◌<◌, ◌≡◌, refl, sym, ◌∙◌, ap, subst, Bool, true, false, Option, none, some, [], ◌∷◌,
  String, Table, lookup, lookup-insert, lookup-erase, NodupKeys, insert-NodupKeys, erase-NodupKeys,
  total, value, total-insert, total-erase, eq_self, if◌then◌else◌, leb, ◌==◌, nat_equality,
  string_equality, arith, Bool-cases, inl, inr, ◌⊎◌, ◌↔◌,
}
use clice.CacheStore.{
  Entry, Namespace, erase_entry, candidates, insert_candidate, sort_candidates, evict_each, size_of,
  put_entry,
}

abbrev pub entry_size : Entry → ℕ
entry_size e = e.size

pub record Accounted (ns : Namespace) : Type 0 where
  pub sum : ns.total_size ≡ total entry_size ns.entries % u64
  pub small : (k : String) (e : Entry) → lookup k ns.entries ≡ some e → e.size < u64
  pub nodup : NodupKeys ns.entries

pub pick :
    {A : Type 0} (b : Bool) (o p : Option A) (a : A)
    → (if b then o else p) ≡ some a
    → (b ≡ true) × (o ≡ some a) ⊎ (b ≡ false) × (p ≡ some a)
pick true o p a h = inl (refl, h)
pick false o p a h = inr (refl, h)

pub erase_entry-Accounted :
    (key : String) (entry : Entry) (ns : Namespace)
    → Accounted ns
    → lookup key ns.entries ≡ some entry
    → Accounted (erase_entry key entry.size ns)
unfolding erase_entry
erase_entry-Accounted key entry ns a here = record {
  sum = omega (
    arith,
    a.sum,
    a.small key entry here,
    total-erase entry_size key ns.entries a.nodup,
    ap (value entry_size) here,
  );
  small = λ k e h.
      elim (pick (key == k) none (lookup k ns.entries) e
        (sym (lookup-erase key k ns.entries) ∙ h)) [
          | inl (same, clash) ↦ absurd (ground arith)
          | inr (other, old) ↦ a.small k e old
        ];
  nodup = erase-NodupKeys key ns.entries a.nodup;
}

same_size :
    (key : String) (m : Table String Entry) → size_of key m ≡ value entry_size (lookup key m)
unfolding size_of
same_size key m = inner (lookup key m)
  where
    inner :
        (o : Option Entry)
        → ◌≡◌ {A = ℕ} (elim o [ none ↦ 0 | some entry ↦ entry.size ]) (value entry_size o)
    inner none = refl
    inner (some e) = refl

pub put_entry-Accounted :
    (key : String) (size stamp : ℕ) (ns : Namespace)
    → Accounted ns
    → size < u64
    → Accounted (put_entry key size stamp ns)
unfolding put_entry
put_entry-Accounted key size stamp ns a fits = record {
  sum = omega (
    arith,
    a.sum,
    old_small (lookup key ns.entries) refl,
    total-insert entry_size key (record { size = size; atime = stamp }) ns.entries,
    same_size key ns.entries,
  );
  small = λ k e h.
      elim (pick (key == k) _ (lookup k ns.entries) e
        (sym (lookup-insert key k _ ns.entries) ∙ h)) [
          | inl (same, new) ↦ rw (sym (ap (value entry_size) new)) fits
          | inr (other, old) ↦ a.small k e old
        ];
  nodup = insert-NodupKeys key _ ns.entries a.nodup;
}
  where
    old_small : (o : Option Entry) → lookup key ns.entries ≡ o → size_of key ns.entries < u64
    old_small none h = rw (h, size_of) (omega arith)
    old_small (some e) h = rw (h, size_of) (a.small key e h)

pub same_iff : (a b : String) → ((a == b) ≡ true) ↔ (a ≡ b)
same_iff a b = string_equality.test_iff a b

-- The candidates name entries of the namespace, each once.
pub record Names (cs m : Table String Entry) : Type 0 where
  pub distinct : NodupKeys cs
  pub agree : (k : String) (e : Entry) → lookup k cs ≡ some e → lookup k m ≡ some e

pub candidates-lookup :
    (keep : String) (m : Table String Entry) (k : String)
    → lookup k (candidates keep m) ≡ (if k == keep then none else lookup k m)
unfolding candidates lookup
candidates-lookup keep [] k = ground arith
candidates-lookup keep ((j, v) ∷ m) k =
    ground (arith, candidates-lookup keep m k, same_iff j keep, same_iff j k, same_iff k keep)

pub candidates-NodupKeys :
    (keep : String) (m : Table String Entry) → NodupKeys m → NodupKeys (candidates keep m)
unfolding candidates lookup
candidates-NodupKeys keep [] h = h
candidates-NodupKeys keep ((j, v) ∷ m) h = elim (Bool-cases (j == keep)) [
  | inl same ↦ rw same (candidates-NodupKeys keep m h.1)
  | inr other ↦
      rw other (candidates-lookup keep m j ∙ rw other h.0, candidates-NodupKeys keep m h.1)
]

insert_candidate-lookup :
    (key : String) (entry : Entry) (m : Table String Entry) (k : String)
    → lookup key m ≡ none
    → lookup k (insert_candidate key entry m) ≡ (if key == k then some entry else lookup k m)
unfolding insert_candidate lookup
insert_candidate-lookup key entry [] k h = refl
insert_candidate-lookup key entry ((j, v) ∷ m) k h = ground (
  arith,
  h,
  insert_candidate-lookup key entry m k,
  same_iff key k,
  same_iff j k,
  same_iff j key,
  same_iff key j,
)

pub sort_candidates-lookup :
    (m : Table String Entry) (k : String) → NodupKeys m → lookup k (sort_candidates m) ≡ lookup k m
unfolding sort_candidates lookup
sort_candidates-lookup [] k h = refl
sort_candidates-lookup ((j, v) ∷ m) k h =
    insert_candidate-lookup j v (sort_candidates m) k (sort_candidates-lookup m j h.1 ∙ h.0)
    ∙ ap (λ (o : Option Entry). if j == k then some v else o) (sort_candidates-lookup m k h.1)

insert_candidate-NodupKeys :
    (key : String) (entry : Entry) (m : Table String Entry)
    → lookup key m ≡ none
    → NodupKeys m
    → NodupKeys (insert_candidate key entry m)
unfolding insert_candidate lookup
insert_candidate-NodupKeys key entry [] new h = (refl, tt)
insert_candidate-NodupKeys key entry ((j, v) ∷ m) new h =
    elim (Bool-cases (leb entry.atime v.atime)) [
      | inl first ↦ rw first (new, h)
      | inr later ↦ rw later (
        insert_candidate-lookup key entry m j (past new) ∙ rw (apart new) h.0,
        insert_candidate-NodupKeys key entry m (past new) h.1,
      )
    ]
  where
    past : lookup key ((j, v) ∷ m) ≡ none → lookup key m ≡ none
    past e = ground (arith, e)

    apart : lookup key ((j, v) ∷ m) ≡ none → (key == j) ≡ false
    apart e = ground (arith, e, same_iff key j, same_iff j key)

pub sort_candidates-NodupKeys :
    (m : Table String Entry) → NodupKeys m → NodupKeys (sort_candidates m)
unfolding sort_candidates
sort_candidates-NodupKeys [] h = h
sort_candidates-NodupKeys ((j, v) ∷ m) h =
    insert_candidate-NodupKeys j v (sort_candidates m) (sort_candidates-lookup m j h.1 ∙ h.0)
      (sort_candidates-NodupKeys m h.1)
