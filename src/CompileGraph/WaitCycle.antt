-- ===== src/CompileGraph/WaitCycle.antt =====
-- src/server/compiler/compile_graph.cpp: `CompileGraph::has_wait_cycle`.
pub mod Decides
use clice.Base.{
  ℕ, ◌+◌, Bool, true, false, Option, none, some, List, [], ◌∷◌, keys, length, ◌==◌, nat_equality,
  if◌then◌else◌,
}
use clice.Worklist.{Visit, stop, push, stopped, finished, run, budget}
use clice.CompileGraph.State.{Graph, is_compiling}
use clice.CompileGraph.Update.{dependencies_of}

-- The loop over the dependencies: `none` where it meets the waiter, else the nodes to push.
unfoldable pub scan_dependencies : Graph → ℕ → List ℕ → Option (List ℕ)
unfolding is_compiling
scan_dependencies g waiter [] = some []
scan_dependencies g waiter (d ∷ ds) =
    let rest = scan_dependencies g waiter ds in
    if d == waiter then none else (elim rest [
      | none ↦ none
      | some pushed ↦ some (if is_compiling g d then d ∷ pushed else pushed)
    ])

-- The state of the walk does not change.
unfoldable pub cycle_visit : Graph → ℕ → Unit {0} → ℕ → Visit (Unit {0}) (Unit {0})
unfolding scan_dependencies dependencies_of
cycle_visit g waiter s c = elim (scan_dependencies g waiter (dependencies_of g c)) [
  | none ↦ stop tt
  | some pushed ↦ push tt pushed
]

unfoldable pub cycle_fuel : Graph → ℕ
unfolding budget dependencies_of
cycle_fuel g = 2 + budget (λ n. length (dependencies_of g n)) (keys g.units) []

-- `none` means that the fuel ran out.
unfoldable pub has_wait_cycle : Graph → ℕ → ℕ → Option Bool
unfolding run cycle_visit cycle_fuel
has_wait_cycle g target waiter =
    elim (run (cycle_visit g waiter) (cycle_fuel g) tt (target ∷ []) []) [
      | none ↦ none
      | some (stopped r) ↦ some true
      | some (finished s visited) ↦ some false
    ]
