-- ===== src/CompileGraph/Update/Sources.antt =====
-- What the steps of `CompileGraph::update` do to the cancellation sources and to the members of the
-- graph beside its units.
use mathlib.Core.Option
use clice.Base.{
  u64, ℕ, ◌+◌, ◌%◌, ◌≡◌, refl, ◌∙◌, ap, Bool, true, false, Option, none, some, List, [], ◌∷◌, arith,
  if◌then◌else◌, ◌==◌, nat_equality, inl, inr, Option-cases, NodupKeys, adjust-NodupKeys, remove,
}
use clice.CompileGraph.State.{CompileUnit, Graph, find_unit, edit, source_of, has_unit}
use clice.CompileGraph.State.View.{find_unit-edit}
use clice.CompileGraph.Interest.{cancel_round}
use clice.CompileGraph.Update.{drop_back_edges, detach, mark_dirty}

source-edit :
    (p : ℕ) (h : CompileUnit → CompileUnit) (g : Graph) (n : ℕ)
    → ((u : CompileUnit) → (h u).source ≡ u.source)
    → source_of (edit p h g) n ≡ source_of g n
unfolding source_of
source-edit p h g n keeps = ap source (find_unit-edit p h g n) ∙ inner (p == n) (find_unit g n)
  where
    source : Option CompileUnit → ℕ
    source o = elim o [ none ↦ 0 | some u ↦ u.source ]

    inner :
        (b : Bool) (o : Option CompileUnit) → source (if b then Option.map h o else o) ≡ source o
    inner false o = refl
    inner true none = refl
    inner true (some u) = keeps u

source-drop_back_edges :
    (p : ℕ) (ds : List ℕ) (g : Graph) (n : ℕ) → source_of (drop_back_edges p ds g) n ≡ source_of g n
unfolding drop_back_edges
source-drop_back_edges p [] g n = refl
source-drop_back_edges p (d ∷ ds) g n =
    source-drop_back_edges p ds (edit d (λ u. record u { dependents = remove p u.dependents }) g) n
    ∙ source-edit d (λ u. record u { dependents = remove p u.dependents }) g n (λ u. refl)

-- The graph is the same beside its units.
pub record SameRest (g h : Graph) : Type 0 where
  pub rounds : h.rounds ≡ g.rounds
  pub next_round : h.next_round ≡ g.next_round
  pub cancelled : h.cancelled ≡ g.cancelled
  pub checks : h.checks ≡ g.checks
  pub closing : h.closing ≡ g.closing
  pub nodup : NodupKeys g.units → NodupKeys h.units

drop_back_edges-rest : (p : ℕ) (ds : List ℕ) (g : Graph) → SameRest g (drop_back_edges p ds g)
unfolding drop_back_edges edit
drop_back_edges-rest p [] g = record {
  rounds = refl;
  next_round = refl;
  cancelled = refl;
  checks = refl;
  closing = refl;
  nodup = λ h. h;
}
drop_back_edges-rest p (d ∷ ds) g =
    let rest =
      drop_back_edges-rest p ds (edit d (λ u. record u { dependents = remove p u.dependents }) g) in
    record {
      rounds = rest.rounds;
      next_round = rest.next_round;
      cancelled = rest.cancelled;
      checks = rest.checks;
      closing = rest.closing;
      nodup = λ h. rest.nodup (adjust-NodupKeys d _ g.units h);
    }

pub detach-rest : (p : ℕ) (u : CompileUnit) (g : Graph) → SameRest g (detach p u g)
unfolding detach edit
detach-rest p u g =
    let rest =
      drop_back_edges-rest p u.dependencies (edit p (λ v. record v { resolved = false }) g) in
    record {
      rounds = rest.rounds;
      next_round = rest.next_round;
      cancelled = rest.cancelled;
      checks = rest.checks;
      closing = rest.closing;
      nodup = λ h. adjust-NodupKeys p _ _ (rest.nodup (adjust-NodupKeys p _ g.units h));
    }

pub source-detach :
    (p : ℕ) (u : CompileUnit) (g : Graph) (n : ℕ) → source_of (detach p u g) n ≡ source_of g n
unfolding detach
source-detach p u g n =
    source-edit p (λ v. record v { dependencies = [] })
      (drop_back_edges p u.dependencies (edit p (λ v. record v { resolved = false }) g)) n
      (λ v. refl)
    ∙ (source-drop_back_edges p u.dependencies (edit p (λ v. record v { resolved = false }) g) n
        ∙ source-edit p (λ v. record v { resolved = false }) g n (λ v. refl))

source-cancel_round :
    (p : ℕ) (g : Graph) (n : ℕ) → (p == n) ≡ false → source_of (cancel_round p g) n ≡ source_of g n
unfolding cancel_round source_of
source-cancel_round p g n other = elim (Option-cases (find_unit g p)) [
  | inl e ↦ rw (e, cancel_round)
  | inr (u, e) ↦
      rw (e, cancel_round)
        (ground (arith, other, find_unit-edit p (λ v. record v { source = g.next_source }) g n))
]

pub source-mark_dirty :
    (p : ℕ) (g : Graph) (n : ℕ) → (p == n) ≡ false → source_of (mark_dirty p g) n ≡ source_of g n
unfolding mark_dirty
source-mark_dirty p g n other =
    source-edit p (λ u. record u { dirty = true; generation = (u.generation + 1) % u64 })
      (cancel_round p g) n (λ u. refl)
    ∙ source-cancel_round p g n other

pub mark_dirty-cancelled :
    (p : ℕ) (g : Graph)
    → has_unit g p ≡ true
    → (mark_dirty p g).cancelled ≡ source_of g p ∷ g.cancelled
unfolding mark_dirty cancel_round has_unit source_of
mark_dirty-cancelled p g h = ground arith

pub mark_dirty-rest :
    (p : ℕ) (g : Graph)
    → ((mark_dirty p g).rounds ≡ g.rounds)
      × ((mark_dirty p g).next_round ≡ g.next_round)
      × ((mark_dirty p g).checks ≡ g.checks)
      × ((mark_dirty p g).closing ≡ g.closing)
unfolding mark_dirty cancel_round edit
mark_dirty-rest p g = (ground arith, ground arith, ground arith, ground arith)

pub mark_dirty-nodup : (p : ℕ) (g : Graph) → NodupKeys g.units → NodupKeys (mark_dirty p g).units
unfolding mark_dirty cancel_round edit
mark_dirty-nodup p g h = elim (Option-cases (find_unit g p)) [
  | inl e ↦ rw (e, cancel_round) (adjust-NodupKeys p _ g.units h)
  | inr (u, e) ↦ rw (e, cancel_round) (adjust-NodupKeys p _ _ (adjust-NodupKeys p _ g.units h))
]
