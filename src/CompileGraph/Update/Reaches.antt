-- ===== src/CompileGraph/Update/Reaches.antt =====
-- `CompileGraph::update` (src/server/compiler/compile_graph.cpp) dirties the units that depend on the
-- updated one, directly or not, each of them once.
use mathlib.Core.Option
use mathlib.Core.Bool.{false≢true, or-false, and-true}
use mathlib.Core.Path.{ap₂}
use clice.Base.{
  NodupKeys, ℕ, ◌≤◌, ◌≡◌, ◌↔◌, refl, sym, ◌∙◌, ap, subst, Bool, true, false, Option, none, some,
  List, [], ◌∷◌, ◌++◌, ◌&&◌, arith, remove, contains, count, if◌then◌else◌, ◌==◌, nat_equality,
  nat_beq_iff, ◌⊎◌, inl, inr, Option-cases, Bool-cases, length, keys, lookup-missing, length-remove,
  contains-remove, contains_head, contains_tail, count-append, contains-append, count_absent,
  contains_last_cases,
}
use clice.Worklist.{Visit, push, Outcome, stopped, finished, run_lem, Reach, here, Fits, Ends}
use clice.CompileGraph.State.{CompileUnit, Graph, find_unit, has_unit, source_of}
use clice.CompileGraph.State.View.{view}
use clice.CompileGraph.Update.{dependents_of, dependencies_of, detach, update_visit, update}
use clice.CompileGraph.Update.Sources.{
  detach-rest, source-detach, source-mark_dirty, mark_dirty-cancelled, mark_dirty-rest,
  mark_dirty-nodup,
}
use clice.CompileGraph.Update.Progress.{
  settled, HasDependent, Progress, visited, units_new, Progress-missing, has_unit-view,
  dependents-view, back, has_unit-detach,
}

module _ (g : Graph) (p : ℕ) where
  -- The graph that `mark_dirty` is called on.
  abbrev base : ℕ → CompileUnit → Graph → Graph
  base c u G = if c == p then detach p u G else G

  base-source :
      (c : ℕ) (u : CompileUnit) (G : Graph) (n : ℕ) → source_of (base c u G) n ≡ source_of G n
  base-source c u G n = elim (Bool-cases (c == p)) [
    | inl same ↦ rw same (source-detach p u G n)
    | inr other ↦ rw other
  ]

  visited-source :
      (c : ℕ) (u : CompileUnit) (G : Graph) (n : ℕ)
      → (c == n) ≡ false
      → source_of (visited g p c u G) n ≡ source_of G n
  visited-source c u G n other = source-mark_dirty c (base c u G) n other ∙ base-source c u G n

  found-has_unit :
      (c : ℕ) (u : CompileUnit) (G : Graph) → find_unit G c ≡ some u → has_unit G c ≡ true
  unfolding has_unit
  found-has_unit c u G e = ground arith

  visited-cancelled :
      (c : ℕ) (u : CompileUnit) (G : Graph)
      → find_unit G c ≡ some u
      → (visited g p c u G).cancelled ≡ source_of G c ∷ G.cancelled
  visited-cancelled c u G e = elim (Bool-cases (c == p)) [
    | inl same ↦ rw same (
        mark_dirty-cancelled c (detach p u G) (has_unit-detach p u G c ∙ found-has_unit c u G e)
        ∙ ap₂ ◌∷◌ (source-detach p u G c) (detach-rest p u G).cancelled)
    | inr other ↦ rw other (mark_dirty-cancelled c G (found-has_unit c u G e))
  ]

  Progress-has_unit :
      {s : Graph × List ℕ} {v : List ℕ} → Progress g p s v → (n : ℕ) → has_unit s.0 n ≡ has_unit g n
  Progress-has_unit {s} {v} i n =
      has_unit-view s.0 n ∙ (ap present (i.units n) ∙ (inner (view g n) ∙ sym (has_unit-view g n)))
    where
      present : Option CompileUnit → Bool
      present o = elim o [ none ↦ false | some u ↦ true ]

      inner :
          (o : Option CompileUnit)
          → present (Option.map (settled p (back g p) n (contains v p) (contains v n)) o)
            ≡ present o
      inner none = refl
      inner (some u) = refl

  -- The dependents that are pushed once `p` was visited.
  pruned : ℕ → List ℕ
  pruned c = if contains (back g p) c then remove p (dependents_of g c) else dependents_of g c

  Progress-dependents :
      {s : Graph × List ℕ} {v : List ℕ}
      → Progress g p s v
      → contains v p ≡ true
      → (n : ℕ) → dependents_of s.0 n ≡ pruned n
  unfolding pruned remove
  Progress-dependents {s} {v} i begun n =
      dependents-view s.0 n
      ∙ (ap list (i.units n)
          ∙ (inner (contains v p) (contains v n) begun (view g n)
              ∙ ap prune (sym (dependents-view g n))))
    where
      list : Option CompileUnit → List ℕ
      list o = elim o [ none ↦ [] | some u ↦ u.dependents ]

      prune : List ℕ → List ℕ
      prune xs = if contains (back g p) n then remove p xs else xs

      inner :
          (started hit : Bool)
          → started ≡ true
          → (o : Option CompileUnit)
          → list (Option.map (settled p (back g p) n started hit) o) ≡ prune (list o)
      inner started hit h none = ground arith
      inner started hit h (some u) = rw h

  visited-rest :
      (c : ℕ) (u : CompileUnit) (G : Graph)
      → ((visited g p c u G).rounds ≡ G.rounds)
        × ((visited g p c u G).checks ≡ G.checks)
        × ((visited g p c u G).closing ≡ G.closing)
        × ((visited g p c u G).next_round ≡ G.next_round)
  visited-rest c u G =
      let (rounds, next_round, checks, closing) = mark_dirty-rest c (base c u G) in
      let rest = detach-rest p u G in
      elim (Bool-cases (c == p)) [
        | inl same ↦ rw same (
          rw same at rounds ∙ rest.rounds,
          rw same at checks ∙ rest.checks,
          rw same at closing ∙ rest.closing,
          rw same at next_round ∙ rest.next_round,
        )
        | inr other ↦
            rw other
              (rw other at rounds, rw other at checks, rw other at closing, rw other at next_round)
      ]

  visited-nodup :
      (c : ℕ) (u : CompileUnit) (G : Graph)
      → NodupKeys G.units
      → NodupKeys (visited g p c u G).units
  visited-nodup c u G h = elim (Bool-cases (c == p)) [
    | inl same ↦ rw same (mark_dirty-nodup c (detach p u G) ((detach-rest p u G).nodup h))
    | inr other ↦ rw other (mark_dirty-nodup c G h)
  ]

  Progress-found :
      (G : Graph) (dirtied v : List ℕ) (c : ℕ) (u : CompileUnit)
      → Progress g p (G, dirtied) v
      → find_unit G c ≡ some u
      → contains v c ≡ false
      → (c ≡ p) ⊎ (contains v p ≡ true)
      → Progress g p (visited g p c u G, dirtied ++ (c ∷ [])) (c ∷ v)
  unfolding contains count
  Progress-found G dirtied v c u i e new begun = record {
    units = units_new g p c u i e new begun;
    listed = λ n.
        contains-append dirtied (c ∷ []) n
        ∙ rw (i.listed n) (elim (Bool-cases (c == n)) [
          | inl same ↦ rw (same, ← (nat_beq_iff c n).0 same, new, present)
          | inr other ↦ rw other (or-false (contains v n && has_unit g n))
        ]);
    once = λ n. elim (Bool-cases (c == n)) [
      | inl same ↦
          omega (
            arith,
            count-append n dirtied (c ∷ []),
            count_absent n dirtied (unlisted n same),
            one n,
          )
      | inr other ↦ omega (arith, count-append n dirtied (c ∷ []), i.once n, none_of n other)
    ];
    cancels = λ n h. rw (visited-cancelled c u G e) (elim (contains_last_cases c dirtied n h) [
      | inl same ↦
          subst (λ x. contains (source_of G c ∷ G.cancelled) (source_of g x) ≡ true) same
            (rw (← i.sources c new) (contains_head (source_of G c) G.cancelled))
      | inr old ↦ contains_tail (source_of G c) G.cancelled (source_of g n) (i.cancels n old)
    ]);
    sources = λ n h. visited-source c u G n (ground arith) ∙ i.sources n (ground arith);
    rounds = (visited-rest c u G).0 ∙ i.rounds;
    next_round = (visited-rest c u G).3 ∙ i.next_round;
    checks = (visited-rest c u G).1 ∙ i.checks;
    closing = (visited-rest c u G).2 ∙ i.closing;
    nodup = λ h. visited-nodup c u G (i.nodup h);
  }
    where
      present : has_unit g c ≡ true
      present = sym (Progress-has_unit i c) ∙ found-has_unit c u G e

      unlisted : (n : ℕ) → (c == n) ≡ true → contains dirtied n ≡ false
      unlisted n same = i.listed n ∙ rw (← (nat_beq_iff c n).0 same, new)

      one : (n : ℕ) → count n (c ∷ []) ≤ 1
      one n = ground arith

      none_of : (n : ℕ) → (c == n) ≡ false → count n (c ∷ []) ≤ 0
      none_of n other = ground arith

  pruned-contains :
      (c d : ℕ)
      → contains (pruned c) d
        ≡ (if contains (back g p) c && (p == d) then false else contains (dependents_of g c) d)
  unfolding pruned
  pruned-contains c d = ground (arith, contains-remove p (dependents_of g c) d)

  pruned-length : (c : ℕ) → length (pruned c) ≤ length (dependents_of g c)
  unfolding pruned
  pruned-length c = ground (arith, length-remove p (dependents_of g c))

  abbrev Fit : List ℕ → ℕ → Visit (Graph × List ℕ) (Unit {0}) → Type 0
  Fit =
      Fits (update_visit p) (HasDependent g) p (Progress g p) (λ _. ⊥)
        (λ n. length (dependents_of g n)) (keys g.units)

  missing-dependents : (c : ℕ) → contains (keys g.units) c ≡ false → length (dependents_of g c) ≤ 0
  unfolding dependents_of
  missing-dependents c h = ground (arith, lookup-missing c g.units h)

  Fit-found :
      (s : Graph × List ℕ) (v : List ℕ) (c : ℕ)
      → Progress g p s (c ∷ v)
      → contains (c ∷ v) p ≡ true
      → Fit v c (push s (dependents_of s.0 c))
  Fit-found s v c i begun = rw (Progress-dependents i begun c) (
    i,
    λ d h. ground (arith, pruned-contains c d),
    λ d h. elim (Bool-cases (p == d)) [
      | inl same ↦ inr (subst (λ x. contains (c ∷ v) x ≡ true) ((nat_beq_iff p d).0 same) begun)
      | inr other ↦ inl (ground (arith, pruned-contains c d))
    ],
    pruned-length c,
    λ h. omega (arith, pruned-length c, missing-dependents c h),
  )

  childless : (c : ℕ) → has_unit g c ≡ false → dependents_of g c ≡ []
  unfolding has_unit dependents_of
  childless c h = ground arith

  Fit-missing :
      (s : Graph × List ℕ) (v : List ℕ) (c : ℕ)
      → Progress g p s v
      → find_unit s.0 c ≡ none
      → Fit v c (push s [])
  unfolding contains has_unit
  Fit-missing s v c i e = (
    Progress-missing g p c i e,
    λ d h. absurd (false≢true h),
    λ d h. absurd (false≢true (sym (ap (λ xs. contains xs d) (childless c gone)) ∙ h)),
    omega arith,
    λ h. omega arith,
  )
    where
      gone : has_unit g c ≡ false
      gone = sym (Progress-has_unit i c) ∙ ground arith

  visit-Fits :
      (s : Graph × List ℕ) (v : List ℕ) (c : ℕ)
      → Progress g p s v
      → Reach (HasDependent g) p c
      → (c ≡ p) ⊎ (contains v p ≡ true)
      → contains v c ≡ false
      → Fit v c (update_visit p s c)
  unfolding update_visit
  visit-Fits (G, dirtied) v c i r begun new = elim (Option-cases (find_unit G c)) [
    | inl e ↦ rw (e, update_visit) (Fit-missing (G, dirtied) v c i e)
    | inr (u, e) ↦
        rw (e, update_visit)
          (Fit-found (visited g p c u G, dirtied ++ (c ∷ [])) v c
            (Progress-found G dirtied v c u i e new begun)
            (elim begun [
              | inl same ↦ subst (λ x. contains (c ∷ v) x ≡ true) same (contains_head c v)
              | inr old ↦ contains_tail c v p old
            ]))
  ]

  -- The result of an update.
  pub record Dirties (s : Graph × List ℕ) : Type 0 where
    pub units :
        (n : ℕ)
        → view s.0 n
          ≡ Option.map (settled p (dependencies_of g p) n true (contains s.1 n)) (view g n)
    pub reached :
        (n : ℕ) → (contains s.1 n ≡ true) ↔ (Reach (HasDependent g) p n × (has_unit g n ≡ true))
    pub once : (n : ℕ) → count n s.1 ≤ 1
    pub cancels : (n : ℕ) → contains s.1 n ≡ true → contains s.0.cancelled (source_of g n) ≡ true
    pub sources : (n : ℕ) → contains s.1 n ≡ false → source_of s.0 n ≡ source_of g n
    pub rounds : s.0.rounds ≡ g.rounds
    pub next_round : s.0.next_round ≡ g.next_round
    pub checks : s.0.checks ≡ g.checks
    pub closing : s.0.closing ≡ g.closing
    pub nodup : NodupKeys g.units → NodupKeys s.0.units

  sourceless : (G : Graph) (n : ℕ) → has_unit G n ≡ false → source_of G n ≡ 0
  unfolding has_unit source_of
  sourceless G n h = ground arith

  Dirties_end :
      (s : Graph × List ℕ) (v : List ℕ)
      → Progress g p s v
      → ((n : ℕ) → contains v n ≡ true → Reach (HasDependent g) p n)
      → ((n : ℕ) → Reach (HasDependent g) p n → contains v n ≡ true)
      → Dirties s
  Dirties_end s v i seen all = record {
    units = λ n. i.units n ∙ final n (view g n) (has_unit-view g n);
    reached = λ n. (
      λ h. (seen n (ground (arith, i.listed n)), ground (arith, i.listed n)),
      λ (r, h). i.listed n ∙ rw (all n r, h),
    );
    once = i.once;
    cancels = i.cancels;
    sources = λ n h. elim (Bool-cases (contains v n)) [
      | inl old ↦
          sourceless s.0 n (Progress-has_unit i n ∙ absent n h old)
          ∙ sym (sourceless g n (absent n h old))
      | inr new ↦ i.sources n new
    ];
    rounds = i.rounds;
    next_round = i.next_round;
    checks = i.checks;
    closing = i.closing;
    nodup = i.nodup;
  }
    where
      absent : (n : ℕ) → contains s.1 n ≡ false → contains v n ≡ true → has_unit g n ≡ false
      absent n h old = ground (arith, i.listed n)

      final :
          (n : ℕ) (o : Option CompileUnit)
          → has_unit g n ≡ elim o [ none ↦ false | some u ↦ true ]
          → Option.map (settled p (dependencies_of g p) n (contains v p) (contains v n)) o
            ≡ Option.map (settled p (dependencies_of g p) n true (contains s.1 n)) o
      final n none h = refl
      final n (some u) h = rw (i.listed n, h, all p here, and-true) refl

  Progress-start : Progress g p (g, []) []
  unfolding contains count
  Progress-start = record {
    units = λ n. unsettled n (view g n);
    listed = λ n. refl;
    once = λ n. omega arith;
    cancels = λ n h. absurd (false≢true h);
    sources = λ n h. refl;
    rounds = refl;
    next_round = refl;
    checks = refl;
    closing = refl;
    nodup = λ h. h;
  }
    where
      unsettled :
          (n : ℕ) (o : Option CompileUnit) → o ≡ Option.map (settled p (back g p) n false false) o
      unsettled n none = refl
      unsettled n (some u) = ground arith

  -- `update` ends within its fuel. It returns the units that depend on the updated one through
  -- recorded dependents, each once; these are dirty with their generation one up and their round
  -- cancelled, the updated unit loses its dependencies with the back-edges to it and will be resolved
  -- again, and everything else is as it was, the interest counts included.
  pub update-Dirties : (s : Graph × List ℕ) × (update p g ≡ some s) × Dirties s
  unfolding update contains count
  update-Dirties = ends _ (
      run_lem (update_visit p) (HasDependent g) p (Progress g p) (λ _. ⊥)
        (λ n. length (dependents_of g n)) (keys g.units) visit-Fits (g, []) (Progress-start))
    where
      ends :
          (r : Option (Outcome (Graph × List ℕ) (Unit {0})))
          → Ends
              (update_visit p)
              (HasDependent g)
              p
              (Progress g p)
              (λ _. ⊥)
              (λ n. length (dependents_of g n))
              (keys g.units)
              r
          → (s : Graph × List ℕ) × (◌≡◌ {A = Option (Graph × List ℕ)}
              (elim r [
                | some (finished s visited) ↦ some s
                | some (stopped r) ↦ none
                | none ↦ none
              ])
              (some s))
            × Dirties s
      ends none e = absurd e
      ends (some (stopped r)) e = absurd e
      ends (some (finished s v)) (i, seen, all) = (s, refl, Dirties_end s v i seen all)
