-- ===== src/CompileGraph/Update/Progress.antt =====
-- The state of the loop of `CompileGraph::update` (src/server/compiler/compile_graph.cpp), compared
-- with the graph at its start.
use mathlib.Core.Option
use mathlib.Core.Bool.{false≢true}
use clice.Base.{
  u64, NodupKeys, ℕ, ◌+◌, ◌%◌, ◌≤◌, ◌≡◌, refl, sym, ◌∙◌, ap, subst, Bool, true, false, Option, none,
  some, List, [], ◌∷◌, ◌&&◌, ◌||◌, arith, remove, contains, count, if◌then◌else◌, ◌==◌,
  nat_equality, nat_beq_iff, ◌⊎◌, inl, inr, Bool-cases,
}
use clice.CompileGraph.State.{CompileUnit, Graph, find_unit, has_unit, source_of}
use clice.CompileGraph.State.View.{strip, view}
use clice.CompileGraph.Update.{dependents_of, dependencies_of, detach, mark_dirty}
use clice.CompileGraph.Update.Marks.{view-mark_dirty, view-detach, marked, detached}

-- The unit `n` of the final graph: `back` are the dependencies that `p` had, `started` says that `p`
-- was visited and `hit` that `n` was.
abbrev pub settled : ℕ → List ℕ → ℕ → Bool → Bool → CompileUnit → CompileUnit
settled p back n started hit u = record u {
  dependencies = if started && p == n then [] else u.dependencies;
  dependents = if started && contains back n then remove p u.dependents else u.dependents;
  resolved = if started && p == n then false else u.resolved;
  dirty = u.dirty || hit;
  generation = if hit then (u.generation + 1) % u64 else u.generation;
}

settled_self :
    (p : ℕ) (back : List ℕ) (n : ℕ) (hit : Bool) (o : Option CompileUnit)
    → hit ≡ false
    → Option.map marked (Option.map (detached p back n) (Option.map (settled p back n false hit) o))
      ≡ Option.map (settled p back n true true) o
settled_self p back n hit none h = refl
settled_self p back n hit (some u) h = ground arith

settled_start :
    (p : ℕ) (back : List ℕ) (n : ℕ) (hit : Bool) (o : Option CompileUnit)
    → Option.map (detached p back n) (Option.map (settled p back n false hit) o)
      ≡ Option.map (settled p back n true hit) o
settled_start p back n hit none = refl
settled_start p back n hit (some u) = ground arith

settled_hit :
    (p : ℕ) (back : List ℕ) (n : ℕ) (started hit : Bool) (o : Option CompileUnit)
    → hit ≡ false
    → Option.map marked (Option.map (settled p back n started hit) o)
      ≡ Option.map (settled p back n started true) o
settled_hit p back n started hit none h = refl
settled_hit p back n started hit (some u) h = ground arith

-- Without back-edges to drop, only the unit `p` itself would change at the start.
settled_absent :
    (p : ℕ) (back : List ℕ) (n : ℕ) (started started' hit : Bool) (o : Option CompileUnit)
    → (p == n) ≡ false
    → back ≡ []
    → Option.map (settled p back n started hit) o ≡ Option.map (settled p back n started' hit) o
unfolding contains
settled_absent p back n started started' hit none h k = refl
settled_absent p back n started started' hit (some u) h k = rw (k, h) (ground arith)

and_false : (b : Bool) → (b && false) ≡ false
and_false b = ground arith

map-none :
    (f : CompileUnit → CompileUnit) (o : Option CompileUnit) → Option.map f o ≡ none → o ≡ none
map-none f none h = refl
map-none f (some u) h = cc

pub has_unit-view :
    (g : Graph) (n : ℕ) → has_unit g n ≡ elim (view g n) [ none ↦ false | some u ↦ true ]
unfolding has_unit
has_unit-view g n = ground arith

pub dependents-view :
    (g : Graph) (n : ℕ) → dependents_of g n ≡ elim (view g n) [ none ↦ [] | some u ↦ u.dependents ]
unfolding dependents_of
dependents-view g n = ground arith

dependencies-view :
    (g : Graph) (n : ℕ)
    → dependencies_of g n ≡ elim (view g n) [ none ↦ [] | some u ↦ u.dependencies ]
unfolding dependencies_of
dependencies-view g n = ground arith

pub has_unit-detach :
    (p : ℕ) (u : CompileUnit) (g : Graph) (n : ℕ) → has_unit (detach p u g) n ≡ has_unit g n
has_unit-detach p u g n =
    has_unit-view (detach p u g) n
    ∙ (ap present (view-detach p u g n) ∙ (inner (view g n) ∙ sym (has_unit-view g n)))
  where
    present : Option CompileUnit → Bool
    present o = elim o [ none ↦ false | some v ↦ true ]

    inner :
        (o : Option CompileUnit) → present (Option.map (detached p u.dependencies n) o) ≡ present o
    inner none = refl
    inner (some v) = refl

module _ (g : Graph) where
  -- `d` is in the list of the dependents of `c`.
  abbrev pub HasDependent : ℕ → ℕ → Type 0
  HasDependent c d = contains (dependents_of g c) d ≡ true

  module _ (p : ℕ) where
    abbrev pub back : List ℕ
    back = dependencies_of g p

    -- The graph and `dirtied` after the units in `v` were visited.
    pub record Progress (s : Graph × List ℕ) (v : List ℕ) : Type 0 where
      pub units :
          (n : ℕ)
          → view s.0 n ≡ Option.map (settled p back n (contains v p) (contains v n)) (view g n)
      pub listed : (n : ℕ) → contains s.1 n ≡ (contains v n && has_unit g n)
      pub once : (n : ℕ) → count n s.1 ≤ 1
      pub cancels : (n : ℕ) → contains s.1 n ≡ true → contains s.0.cancelled (source_of g n) ≡ true
      pub sources : (n : ℕ) → contains v n ≡ false → source_of s.0 n ≡ source_of g n
      pub rounds : s.0.rounds ≡ g.rounds
      pub next_round : s.0.next_round ≡ g.next_round
      pub checks : s.0.checks ≡ g.checks
      pub closing : s.0.closing ≡ g.closing
      pub nodup : NodupKeys g.units → NodupKeys s.0.units

    dependencies_kept :
        {G : Graph} {dirtied v : List ℕ}
        → Progress (G, dirtied) v
        → contains v p ≡ false
        → dependencies_of G p ≡ back
    dependencies_kept {G} {v = v} i new =
        dependencies-view G p
        ∙ (ap deps (i.units p)
            ∙ (same (contains v p) (contains v p) new (view g p) ∙ sym (dependencies-view g p)))
      where
        deps : Option CompileUnit → List ℕ
        deps o = elim o [ none ↦ [] | some u ↦ u.dependencies ]

        same :
            (started hit : Bool)
            → started ≡ false
            → (o : Option CompileUnit) → deps (Option.map (settled p back p started hit) o) ≡ deps o
        same started hit h none = refl
        same started hit h (some u) = rw h

    units_self :
        {G : Graph} {dirtied v : List ℕ} (u : CompileUnit)
        → Progress (G, dirtied) v
        → u.dependencies ≡ back
        → contains v p ≡ false
        → (n : ℕ)
        → view (mark_dirty p (detach p u G)) n
          ≡ Option.map (settled p back n true (p == n || contains v n)) (view g n)
    units_self {G} {v = v} u i deps new n =
        rw (view-mark_dirty p (detach p u G) n, view-detach p u G n, i.units n, deps, new)
          (elim (Bool-cases (p == n)) [
            | inl same ↦ rw same (
                settled_self p back n (contains v n) (view g n)
                  (subst (λ x. contains v x ≡ false) ((nat_beq_iff p n).0 same) new))
            | inr other ↦ rw other (settled_start p back n (contains v n) (view g n))
          ])

    units_other :
        {G : Graph} {dirtied v : List ℕ} (c : ℕ)
        → Progress (G, dirtied) v
        → contains v c ≡ false
        → contains v p ≡ true
        → (n : ℕ)
        → view (mark_dirty c G) n
          ≡ Option.map (settled p back n true (c == n || contains v n)) (view g n)
    units_other {G} {v = v} c i new begun n =
        rw (view-mark_dirty c G n, i.units n, begun)
          (elim (Bool-cases (c == n)) [
            | inl same ↦ rw same (
                settled_hit p back n true (contains v n) (view g n)
                  (subst (λ x. contains v x ≡ false) ((nat_beq_iff c n).0 same) new))
            | inr other ↦ rw other
          ])

    -- The graph that a visit of a present unit makes.
    abbrev pub visited : ℕ → CompileUnit → Graph → Graph
    visited c u G = mark_dirty c (if c == p then detach p u G else G)

    found_dependencies :
        (G : Graph) (u : CompileUnit)
        → find_unit G p ≡ some u
        → dependencies_of G p ≡ u.dependencies
    unfolding dependencies_of
    found_dependencies G u e = ground arith

    pub units_new :
        {G : Graph} {dirtied v : List ℕ} (c : ℕ) (u : CompileUnit)
        → Progress (G, dirtied) v
        → find_unit G c ≡ some u
        → contains v c ≡ false
        → (c ≡ p) ⊎ (contains v p ≡ true)
        → (n : ℕ)
        → view (visited c u G) n
          ≡ Option.map (settled p back n (contains (c ∷ v) p) (contains (c ∷ v) n)) (view g n)
    unfolding contains
    units_new {G} {v = v} c u i e new begun n = elim (Bool-cases (c == p)) [
      | inl same ↦ rw same (
          subst
            (λ x.
              view (mark_dirty x (detach p u G)) n
              ≡ Option.map (settled p back n true (x == n || contains v n)) (view g n))
            (sym ((nat_beq_iff c p).0 same))
            (units_self u i
              (sym (
                  found_dependencies G u
                    (subst (λ x. find_unit G x ≡ some u) ((nat_beq_iff c p).0 same) e))
                ∙ dependencies_kept i
                    (subst (λ x. contains v x ≡ false) ((nat_beq_iff c p).0 same) new))
              (subst (λ x. contains v x ≡ false) ((nat_beq_iff c p).0 same) new) n))
      | inr other ↦ elim begun [
        | inl same ↦ absurd (false≢true (sym other ∙ (nat_beq_iff c p).1 same))
        | inr old ↦ rw (other, old) (units_other c i new old n)
      ]
    ]

    -- A visit of a missing unit changes no entry.
    settled_missing :
        (v : List ℕ) (c : ℕ)
        → view g c ≡ none
        → (n : ℕ)
        → Option.map (settled p back n (contains v p) (contains v n)) (view g n)
          ≡ Option.map (settled p back n (contains (c ∷ v) p) (contains (c ∷ v) n)) (view g n)
    unfolding contains
    settled_missing v c gone n = elim (Bool-cases (c == n)) [
      | inl same ↦
          subst
            (λ x.
              Option.map (settled p back x (contains v p) (contains v x)) (view g x)
              ≡ Option.map (settled p back x (c == p || contains v p) (c == x || contains v x))
                  (view g x))
            ((nat_beq_iff c n).0 same) (rw gone)
      | inr other ↦ rw other (elim (Bool-cases (c == p)) [
        | inl same ↦
            settled_absent p back n (contains v p) (c == p || contains v p) (contains v n)
              (view g n) (subst (λ x. (x == n) ≡ false) ((nat_beq_iff c p).0 same) other)
              (dependencies-view g p
                ∙ ap deps (subst (λ x. view g x ≡ none) ((nat_beq_iff c p).0 same) gone))
        | inr other' ↦ rw other'
      ])
    ]
      where
        deps : Option CompileUnit → List ℕ
        deps o = elim o [ none ↦ [] | some u ↦ u.dependencies ]

    pub Progress-missing :
        {s : Graph × List ℕ} {v : List ℕ} (c : ℕ)
        → Progress s v
        → find_unit s.0 c ≡ none
        → Progress s (c ∷ v)
    unfolding contains
    Progress-missing {s} {v} c i e = record {
      units = λ n. i.units n ∙ settled_missing v c gone n;
      listed = λ n. elim (Bool-cases (c == n)) [
        | inl same ↦ rw same (
            subst (λ x. contains s.1 x ≡ has_unit g x) ((nat_beq_iff c n).0 same)
              (rw absent (i.listed c ∙ rw absent (and_false (contains v c)))))
        | inr other ↦ rw other (i.listed n)
      ];
      once = i.once;
      cancels = i.cancels;
      sources = λ n h. i.sources n (ground arith);
      rounds = i.rounds;
      next_round = i.next_round;
      checks = i.checks;
      closing = i.closing;
      nodup = i.nodup;
    }
      where
        gone : view g c ≡ none
        gone = map-none _ (view g c) (sym (i.units c) ∙ ap (Option.map strip) e)

        absent : has_unit g c ≡ false
        absent = has_unit-view g c ∙ ap (λ o. elim o [ none ↦ false | some u ↦ true ]) gone
