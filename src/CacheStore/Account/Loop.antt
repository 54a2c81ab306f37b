-- ===== src/CacheStore/Account/Loop.antt =====
-- The loop of `evict_locked` (src/support/cache_store.cpp), over any list of candidates.
use clice.Base.{
  ℕ, ◌≡◌, refl, sym, ◌∙◌, subst, Bool, true, false, none, some, [], ◌∷◌, String, Table, lookup,
  lookup-erase, eq_self, if◌then◌else◌, leb, ◌==◌, nat_equality, string_equality, arith, Bool-cases,
  inl, inr, ◌⊎◌,
}
use clice.CacheStore.{Entry, Namespace, erase_entry, candidates, sort_candidates, evict_each}
use clice.CacheStore.Account.{
  Accounted, pick, erase_entry-Accounted, same_iff, Names, candidates-lookup, candidates-NodupKeys,
  sort_candidates-lookup, sort_candidates-NodupKeys,
}

-- What an eviction does to a namespace.
pub record Evicts (ns : Namespace) (r : Namespace) : Type 0 where
  pub accounted : Accounted r
  pub policy : r.policy ≡ ns.policy
  pub max_bytes : r.max_bytes ≡ ns.max_bytes
  pub subset : (k : String) (e : Entry) → lookup k r.entries ≡ some e → lookup k ns.entries ≡ some e

other_key :
    (key : String) (entry : Entry) (rest : Table String Entry) (k : String) (e : Entry)
    → lookup key rest ≡ none
    → lookup k rest ≡ some e
    → (key == k) ≡ false
other_key key entry rest k e new h = elim (Bool-cases (key == k)) [
  | inl same ↦
      absurd (clash (sym (subst (λ x. lookup x rest ≡ none) ((same_iff key k).0 same) new) ∙ h))
  | inr other ↦ other
]
  where
    clash : none ≡ some e → ⊥
    clash c = absurd (ground arith)

rest-Names :
    (key : String) (entry : Entry) (rest : Table String Entry) (ns : Namespace)
    → Names ((key, entry) ∷ rest) ns.entries
    → Names rest ns.entries
unfolding lookup
rest-Names key entry rest ns n = record {
  distinct = n.distinct.1;
  agree = λ k e h. n.agree k e (rw (other_key key entry rest k e n.distinct.0 h) h);
}

erased-Names :
    (key : String) (entry : Entry) (rest : Table String Entry) (ns : Namespace)
    → Names ((key, entry) ∷ rest) ns.entries
    → Names rest (erase_entry key entry.size ns).entries
unfolding erase_entry
erased-Names key entry rest ns n = record {
  distinct = n.distinct.1;
  agree = λ k e h.
      lookup-erase key k ns.entries
      ∙ rw (other_key key entry rest k e n.distinct.0 h)
          ((rest-Names key entry rest ns n).agree k e h);
}

kept_entry :
    (key : String) (entry : Entry) (ns : Namespace) (k : String) (e : Entry)
    → lookup k (erase_entry key entry.size ns).entries ≡ some e
    → lookup k ns.entries ≡ some e
unfolding erase_entry
kept_entry key entry ns k e h =
    elim (pick (key == k) none (lookup k ns.entries) e (sym (lookup-erase key k ns.entries) ∙ h)) [
      | inl (same, clash) ↦ absurd (ground arith)
      | inr (other, old) ↦ old
    ]

pub evict_each-Evicts :
    (removable : String → Bool) (cs : Table String Entry) (ns : Namespace)
    → Accounted ns
    → Names cs ns.entries
    → Evicts ns (evict_each removable cs ns).0
unfolding evict_each lookup
evict_each-Evicts removable [] ns a n = record {
  accounted = a;
  policy = refl;
  max_bytes = refl;
  subset = λ k e h. h;
}
evict_each-Evicts removable ((key, entry) ∷ rest) ns a n =
    elim (Bool-cases (leb ns.total_size ns.max_bytes)) [
      | inl fits ↦
          rw fits (record { accounted = a; policy = refl; max_bytes = refl; subset = λ k e h. h })
      | inr over ↦ rw over (elim (Bool-cases (removable key)) [
        | inl goes ↦ rw goes (
            let r =
              evict_each-Evicts removable rest (erase_entry key entry.size ns)
                (erase_entry-Accounted key entry ns a (here n))
                (erased-Names key entry rest ns n) in
            record {
              accounted = r.accounted;
              policy = r.policy;
              max_bytes = r.max_bytes;
              subset = λ k e h. kept_entry key entry ns k e (r.subset k e h);
            })
        | inr stays ↦
            rw stays (evict_each-Evicts removable rest ns a (rest-Names key entry rest ns n))
      ])
    ]
  where
    here : Names ((key, entry) ∷ rest) ns.entries → lookup key ns.entries ≡ some entry
    here n = n.agree key entry (rw (eq_self key) refl)

pub sorted-Names :
    (keep : String) (ns : Namespace)
    → Accounted ns
    → Names (sort_candidates (candidates keep ns.entries)) ns.entries
sorted-Names keep ns a =
    let nodup = candidates-NodupKeys keep ns.entries a.nodup in
    record {
      distinct = sort_candidates-NodupKeys (candidates keep ns.entries) nodup;
      agree = λ k e h. agreed k e (
          sym (candidates-lookup keep ns.entries k)
          ∙ (sym (sort_candidates-lookup (candidates keep ns.entries) k nodup) ∙ h));
    }
  where
    agreed :
        (k : String) (e : Entry)
        → (if k == keep then none else lookup k ns.entries) ≡ some e
        → lookup k ns.entries ≡ some e
    agreed k e h = elim (pick (k == keep) none (lookup k ns.entries) e h) [
      | inl (same, clash) ↦ absurd (ground arith)
      | inr (other, old) ↦ old
    ]

-- An entry that is no candidate stays.
pub evict_each-keeps :
    (removable : String → Bool) (cs : Table String Entry) (ns : Namespace) (k : String)
    → lookup k cs ≡ none
    → lookup k (evict_each removable cs ns).0.entries ≡ lookup k ns.entries
unfolding evict_each lookup erase_entry
evict_each-keeps removable [] ns k h = refl
evict_each-keeps removable ((key, entry) ∷ rest) ns k h =
    elim (Bool-cases (leb ns.total_size ns.max_bytes)) [
      | inl fits ↦ rw fits refl
      | inr over ↦ rw over (elim (Bool-cases (removable key)) [
        | inl goes ↦ rw goes (
            evict_each-keeps removable rest (erase_entry key entry.size ns) k (past h)
            ∙ (lookup-erase key k ns.entries ∙ rw (apart h) refl))
        | inr stays ↦ rw stays (evict_each-keeps removable rest ns k (past h))
      ])
    ]
  where
    past : lookup k ((key, entry) ∷ rest) ≡ none → lookup k rest ≡ none
    past e = ground (arith, e)

    apart : lookup k ((key, entry) ∷ rest) ≡ none → (key == k) ≡ false
    apart e = ground (arith, e)

erased_budget :
    (key : String) (entry : Entry) (ns : Namespace) (size : ℕ)
    → leb size (erase_entry key entry.size ns).max_bytes ≡ true
    → leb size ns.max_bytes ≡ true
unfolding erase_entry
erased_budget key entry ns size h = h

erased :
    (key : String) (entry : Entry) (ns : Namespace)
    → lookup key (erase_entry key entry.size ns).entries ≡ none
unfolding erase_entry
erased key entry ns = lookup-erase key key ns.entries ∙ rw (eq_self key) refl

-- Where every blob can be removed, the budget is met or every candidate is gone.
pub evict_each-budget :
    (cs : Table String Entry) (ns : Namespace)
    → Accounted ns
    → Names cs ns.entries
    → (leb (evict_each (λ k. true) cs ns).0.total_size ns.max_bytes ≡ true)
      ⊎ ((k : String) (e : Entry)
          → lookup k cs ≡ some e
          → lookup k (evict_each (λ k. true) cs ns).0.entries ≡ none)
unfolding evict_each lookup
evict_each-budget [] ns a n = inr (λ k e h. absurd (ground arith))
evict_each-budget ((key, entry) ∷ rest) ns a n =
    elim (Bool-cases (leb ns.total_size ns.max_bytes)) [
      | inl fits ↦ rw fits (inl fits)
      | inr over ↦
          rw over
            (elim (evict_each-budget rest (erase_entry key entry.size ns) (less n)
              (erased-Names key entry rest ns n)) [
                | inl fits ↦ inl (same_budget fits)
                | inr gone ↦ inr (λ k e h. elim (pick (key == k) (some entry) (lookup k rest) e h) [
                  | inl (same, new) ↦
                      subst
                        (λ x.
                          lookup x
                            (evict_each (λ k. true) rest (erase_entry key entry.size ns)).0.entries
                          ≡ none)
                        ((same_iff key k).0 same) (first_gone n)
                  | inr (other, old) ↦ gone k e old
                ])
              ])
    ]
  where
    less : Names ((key, entry) ∷ rest) ns.entries → Accounted (erase_entry key entry.size ns)
    less n = erase_entry-Accounted key entry ns a (n.agree key entry (rw (eq_self key) refl))

    same_budget :
        leb
            (evict_each (λ k. true) rest (erase_entry key entry.size ns)).0.total_size
            (erase_entry key entry.size ns).max_bytes
          ≡ true
        → leb
            (evict_each (λ k. true) rest (erase_entry key entry.size ns)).0.total_size
            ns.max_bytes
          ≡ true
    same_budget h = erased_budget key entry ns _ h

    first_gone :
        Names ((key, entry) ∷ rest) ns.entries
        → lookup key (evict_each (λ k. true) rest (erase_entry key entry.size ns)).0.entries ≡ none
    first_gone n =
        evict_each-keeps (λ k. true) rest (erase_entry key entry.size ns) key n.distinct.0
        ∙ erased key entry ns
