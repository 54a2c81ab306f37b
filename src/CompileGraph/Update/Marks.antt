-- ===== src/CompileGraph/Update/Marks.antt =====
-- What one round of the loop of `CompileGraph::update` does to every unit.
use mathlib.Core.Option
use clice.Base.{
  u64, ℕ, ◌+◌, ◌%◌, ◌≡◌, refl, ◌∙◌, Bool, true, false, Option, none, some, List, [], ◌∷◌, arith,
  remove, remove-remove, contains, if◌then◌else◌, ◌==◌, nat_equality, Option-cases, inl, inr,
}
use clice.CompileGraph.State.{CompileUnit, Graph, find_unit, edit}
use clice.CompileGraph.State.View.{view, view-edit, view-edit_same}
use clice.CompileGraph.Interest.{cancel_round}
use clice.CompileGraph.Update.{drop_back_edges, detach, mark_dirty}

pub view-cancel_round : (p : ℕ) (g : Graph) (n : ℕ) → view (cancel_round p g) n ≡ view g n
unfolding cancel_round
view-cancel_round p g n = elim (Option-cases (find_unit g p)) [
  | inl e ↦ rw (e, cancel_round)
  | inr (u, e) ↦
      rw (e, cancel_round)
        (view-edit_same p (λ v. record v { source = g.next_source }) g n (λ v. refl))
]

abbrev pub marked : CompileUnit → CompileUnit
marked u = record u { dirty = true; generation = (u.generation + 1) % u64 }

pub view-mark_dirty :
    (p : ℕ) (g : Graph) (n : ℕ)
    → view (mark_dirty p g) n ≡ (if p == n then Option.map marked (view g n) else view g n)
unfolding mark_dirty
view-mark_dirty p g n =
    view-edit p marked (cancel_round p g) n (λ u. refl) ∙ rw (view-cancel_round p g n)

abbrev pub without : ℕ → CompileUnit → CompileUnit
without p u = record u { dependents = remove p u.dependents }

without_twice :
    (p : ℕ) (o : Option CompileUnit)
    → Option.map (without p) (Option.map (without p) o) ≡ Option.map (without p) o
without_twice p none = refl
without_twice p (some u) = rw (remove-remove p u.dependents)

pub view-drop_back_edges :
    (p : ℕ) (ds : List ℕ) (g : Graph) (n : ℕ)
    → view (drop_back_edges p ds g) n
      ≡ (if contains ds n then Option.map (without p) (view g n) else view g n)
unfolding drop_back_edges contains
view-drop_back_edges p [] g n = refl
view-drop_back_edges p (d ∷ ds) g n =
    view-drop_back_edges p ds (edit d (without p) g) n
    ∙ rw (view-edit d (without p) g n (λ u. refl)) (ground (arith, without_twice p (view g n)))

-- The unit `n` after the branch for `current == p`, where `deps` are the dependencies of `p`.
abbrev pub detached : ℕ → List ℕ → ℕ → CompileUnit → CompileUnit
detached p deps n u = record u {
  dependencies = if p == n then [] else u.dependencies;
  dependents = if contains deps n then remove p u.dependents else u.dependents;
  resolved = if p == n then false else u.resolved;
}

abbrev unresolved : CompileUnit → CompileUnit
unresolved u = record u { resolved = false }

abbrev independent : CompileUnit → CompileUnit
independent u = record u { dependencies = [] }

pub view-detach :
    (p : ℕ) (u : CompileUnit) (g : Graph) (n : ℕ)
    → view (detach p u g) n ≡ Option.map (detached p u.dependencies n) (view g n)
unfolding detach
view-detach p u g n =
    rw
      (
        view-edit p independent (drop_back_edges p u.dependencies (edit p unresolved g)) n
            (λ v. refl),
        view-drop_back_edges p u.dependencies (edit p unresolved g) n,
        view-edit p unresolved g n (λ v. refl),
      )
      (pieces (p == n) (contains u.dependencies n) (view g n))
  where
    pieces :
        (self back : Bool) (o : Option CompileUnit)
        → (let first = if self then Option.map unresolved o else o in
            let second = if back then Option.map (without p) first else first in
            if self then Option.map independent second else second)
          ≡ Option.map
              (λ (v : CompileUnit). record v {
                dependencies = if self then [] else v.dependencies;
                dependents = if back then remove p v.dependents else v.dependents;
                resolved = if self then false else v.resolved;
              })
              o
    pieces self back none = ground arith
    pieces self back (some v) = ground arith
