-- ===== src/CompileGraph/Update.antt =====
-- src/server/compiler/compile_graph.cpp: `CompileGraph::update`.
pub mod Marks
pub mod Sources
pub mod Progress
pub mod Reaches
pub mod Frame
use clice.Base.{
  u64, ℕ, ◌+◌, ◌%◌, true, false, Option, none, some, List, [], ◌∷◌, ◌++◌, keys, length, remove,
  ◌==◌, nat_equality, if◌then◌else◌,
}
use clice.Worklist.{Visit, push, stopped, finished, run, budget}
use clice.CompileGraph.State.{CompileUnit, Graph, find_unit, read, edit}
use clice.CompileGraph.Interest.{cancel_round}

-- The loop over `unit.dependencies` that erases the back-edges to `p`.
unfoldable pub drop_back_edges : ℕ → List ℕ → Graph → Graph
unfolding edit
drop_back_edges p [] g = g
drop_back_edges p (d ∷ ds) g =
    drop_back_edges p ds (edit d (λ u. record u { dependents = remove p u.dependents }) g)

-- The branch `current == path_id`.
unfoldable pub detach : ℕ → CompileUnit → Graph → Graph
unfolding edit drop_back_edges
detach p u g =
    edit p (λ u. record u { dependencies = [] })
      (drop_back_edges p u.dependencies (edit p (λ u. record u { resolved = false }) g))

unfoldable pub mark_dirty : ℕ → Graph → Graph
unfolding edit cancel_round
mark_dirty p g =
    edit p (λ u. record u { dirty = true; generation = (u.generation + 1) % u64 })
      (cancel_round p g)

unfoldable pub dependents_of : Graph → ℕ → List ℕ
dependents_of = read [] (λ u. u.dependents)

unfoldable pub dependencies_of : Graph → ℕ → List ℕ
dependencies_of = read [] (λ u. u.dependencies)

-- One round of the loop past the `visited` test; the state is the graph and `dirtied`.
unfoldable pub update_visit : ℕ → Graph × List ℕ → ℕ → Visit (Graph × List ℕ) (Unit {0})
unfolding detach mark_dirty dependents_of
update_visit p (g, dirtied) c = elim (find_unit g c) [
  | none ↦ push (g, dirtied) []
  | some u ↦
      let g' = mark_dirty c (if c == p then detach p u g else g) in
      push (g', dirtied ++ (c ∷ [])) (dependents_of g' c)
]

-- Each unit pushes its dependents once at most.
unfoldable pub update_fuel : Graph → ℕ
unfolding budget dependents_of
update_fuel g = 2 + budget (λ n. length (dependents_of g n)) (keys g.units) []

-- The graph and the units that were marked dirty; `none` means that the fuel ran out.
unfoldable pub update : ℕ → Graph → Option (Graph × List ℕ)
unfolding run update_visit update_fuel
update p g = elim (run (update_visit p) (update_fuel g) (g, []) (p ∷ []) []) [
  | some (finished s visited) ↦ some s
  | some (stopped r) ↦ none
  | none ↦ none
]
