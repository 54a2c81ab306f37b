-- ===== src/CompileGraph/Samples.antt =====
-- The theorems on the compilation graph (src/server/compiler/compile_graph.cpp) at concrete graphs.
use clice.Base.{
  u32, lookup, adjust, insert, ℕ, ◌%◌, ◌&&◌, ◌≡◌, refl, true, false, some, List, [], ◌∷◌, contains,
  if◌then◌else◌, ◌==◌, nat_equality,
}
use clice.CompileGraph.State.{
  stale, success, Graph, CompileUnit, empty_graph, ensure_resolved, find_unit, refcount, is_dirty,
  is_compiling, has_unit, idle, consistent,
}
use clice.CompileGraph.Interest.{acquire_all, release_all}
use clice.CompileGraph.Interest.Resolve.{Resolves, ensure_resolved-Resolves}
use clice.Worklist.{here, next}
use clice.CompileGraph.Update.Progress.{HasDependent}
use clice.CompileGraph.Update.{dependents_of, update}
use clice.CompileGraph.Update.Reaches.{Dirties, update-Dirties}
use clice.CompileGraph.WaitCycle.{has_wait_cycle}
use clice.CompileGraph.WaitCycle.Decides.{Answers, has_wait_cycle-Answers}
use clice.CompileGraph.Task.{UnitTask, drop_guard, spawn_unit, finish_dispatch}
use clice.CompileGraph.Task.Flight.{running, has_round}
use clice.CompileGraph.Task.Guard.{Drops, drop_guard-Drops}
use clice.CompileGraph.Task.Dispatch.{
  Settles, settle, finish_dispatch-Settles, update-finish_dispatch,
}
use clice.CompileGraph.Run.{
  World, initial, spawned, Reachable, start, step, request, resolve, spawn, end_request, interest,
}
use clice.CompileGraph.Run.Invariant.{
  refcount-interest, running-is_compiling, consistent_lem, idle_lem,
}

-- Unit 1 imports unit 2, which imports nothing.
abbrev linked : World
linked = record initial { graph = ensure_resolved 2 [] (ensure_resolved 1 (2 ∷ []) empty_graph) }

abbrev requested : World
requested = record {
  graph = acquire_all (1 ∷ []) linked.graph;
  tasks = [];
  requests = (1 ∷ []) ∷ [];
}

abbrev compiling : World
compiling = spawned requested (spawn_unit 1 (2 ∷ []) requested.graph)

abbrev ended : World
ended = record { graph = release_all (1 ∷ []) requested.graph; tasks = []; requests = [] }

requested-Reachable : Reachable requested
requested-Reachable =
    step (step (step start (resolve 1 (2 ∷ []))) (resolve 2 [])) (request (1 ∷ []))

ended-Reachable : Reachable ended
ended-Reachable = step requested-Reachable (end_request [] [] (1 ∷ []) refl)

requested_dirty : is_dirty requested.graph 1 ≡ true
unfolding is_dirty empty_graph ensure_resolved acquire_all lookup adjust insert contains
requested_dirty = refl

requested_off : is_compiling requested.graph 1 ≡ false
unfolding is_compiling empty_graph ensure_resolved acquire_all lookup adjust insert contains
requested_off = refl

compiling-Reachable : Reachable compiling
compiling-Reachable = step requested-Reachable (spawn 1 (2 ∷ []) requested_dirty requested_off)

refcount-interest_example : refcount compiling.graph 2 ≡ interest compiling 2 % u32
refcount-interest_example = refcount-interest compiling compiling-Reachable 2

running-is_compiling_example :
    running 1 compiling.tasks ≡ (if is_compiling compiling.graph 1 then 1 else 0)
running-is_compiling_example = running-is_compiling compiling compiling-Reachable 1

consistent_example : consistent compiling.graph ≡ true
consistent_example = consistent_lem compiling compiling-Reachable

idle_example : idle ended.graph ≡ true
idle_example = idle_lem ended ended-Reachable refl refl

-- The task of unit 1, and its unit while it runs.
abbrev task : UnitTask
task = record { path_id = 1; round = 0; acquired = 2 ∷ []; generation = 0; token = 0 }

only_task : compiling.tasks ≡ task ∷ []
unfolding spawn_unit empty_graph ensure_resolved acquire_all lookup adjust insert contains
only_task = refl

abbrev running_unit : CompileUnit
running_unit = record {
  path_id = 1;
  dependencies = 2 ∷ [];
  dependents = [];
  resolved = true;
  dirty = true;
  compiling = true;
  refcount = 1;
  zero_check_pending = false;
  generation = 0;
  source = 0;
  round = some 0;
}

running_here : find_unit compiling.graph 1 ≡ some running_unit
unfolding spawn_unit empty_graph ensure_resolved acquire_all lookup adjust insert contains
running_here = refl

running_round : has_round compiling.graph 0 ≡ true
unfolding spawn_unit empty_graph ensure_resolved acquire_all has_round lookup adjust insert contains
running_round = refl

running-has_unit : has_unit compiling.graph 1 ≡ true
unfolding spawn_unit empty_graph ensure_resolved acquire_all has_unit lookup adjust insert contains
running-has_unit = refl

drop_guard_example : Drops task success compiling.graph (drop_guard task success compiling.graph)
drop_guard_example = drop_guard-Drops task success compiling.graph running-has_unit running_round

finish_dispatch_example :
    Settles task
      (settle true (running_unit.generation == task.generation))
      (if true && (running_unit.generation == task.generation) then false else true)
      (finish_dispatch task true compiling.graph)
finish_dispatch_example =
    finish_dispatch-Settles task compiling.graph running_unit running_here running_round true

update_example :
    (s : Graph × List ℕ) × (update 2 compiling.graph ≡ some s) × Dirties compiling.graph 2 s
update_example = update-Dirties compiling.graph 2

abbrev updated-Dirties :
    (s : Graph × List ℕ) × (update 2 compiling.graph ≡ some s) × Dirties compiling.graph 2 s
updated-Dirties = update-Dirties compiling.graph 2

abbrev updated : Graph × List ℕ
updated = updated-Dirties.0

depends_on_2 : HasDependent compiling.graph 2 1
unfolding spawn_unit empty_graph ensure_resolved acquire_all contains lookup adjust insert
    dependents_of
depends_on_2 = refl

both_dirty : contains updated.1 1 ≡ true
both_dirty = (updated-Dirties.2.reached 1).1 (next here depends_on_2, running-has_unit)

update-finish_dispatch_example : Settles task stale true (finish_dispatch task true updated.0)
update-finish_dispatch_example =
    update-finish_dispatch compiling.graph 2 updated task running_unit true updated-Dirties.1
      running_here refl both_dirty running_round

has_wait_cycle_example : Answers compiling.graph 2 1 (has_wait_cycle compiling.graph 1 2)
has_wait_cycle_example = has_wait_cycle-Answers compiling.graph 2 1

ensure_resolved_example :
    Resolves 3 (1 ∷ []) compiling.graph (ensure_resolved 3 (1 ∷ []) compiling.graph)
ensure_resolved_example = ensure_resolved-Resolves 3 (1 ∷ []) compiling.graph
