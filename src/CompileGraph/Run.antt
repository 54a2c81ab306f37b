-- ===== src/CompileGraph/Run.antt =====
-- The compilation graph as the event loop runs it (src/server/compiler/compile_graph.cpp). A step is
-- what happens between two suspensions, or a part of it: a task that is spawned inside `await_unit`
-- takes a step of its own here, so every order of the code is an order of steps.
pub mod Account
pub mod Spawn
pub mod Invariant
use clice.Base.{
  nat_equality, ℕ, ◌+◌, ◌≡◌, ◌⊎◌, Bool, true, false, Option, none, some, List, [], ◌∷◌, ◌++◌,
  contains, count,
}
use clice.CompileGraph.State.{
  Outcome, stale, failed, Graph, empty_graph, ensure_resolved, is_dirty, is_compiling,
}
use clice.CompileGraph.Interest.{acquire_all, release_all, zero_interest_check, cancel_all}
use clice.CompileGraph.Update.{update}
use clice.CompileGraph.Task.{UnitTask, drop_guard, spawn_unit, finish_dispatch}

-- The graph, the tasks that are suspended, and the references that each live request holds.
pub record World : Type 0 where
  pub graph : Graph
  pub tasks : List UnitTask
  pub requests : List (List ℕ)

abbrev pub initial : World
initial = record { graph = empty_graph; tasks = []; requests = [] }

-- After a spawn there may be one more task.
abbrev pub spawned : World → Graph × Bool × Option UnitTask → World
spawned w (g, ok, none) = record w { graph = g }
spawned w (g, ok, some t) = record w { graph = g; tasks = t ∷ w.tasks }

pub data Step (w : World) : World → Type 0 where
  -- The constructor and the destructor of the `RefGuard` of `compile` or `compile_deps`.
  request :
      (ids : List ℕ)
      → Step w (record w { graph = acquire_all ids w.graph; requests = ids ∷ w.requests })
  end_request :
      (before after : List (List ℕ)) (ids : List ℕ)
      → w.requests ≡ before ++ (ids ∷ after)
      → Step w (record w { graph = release_all ids w.graph; requests = before ++ after })
  -- The first line of `compile_deps`.
  resolve : (p : ℕ) (ds : List ℕ) → Step w (record w { graph = ensure_resolved p ds w.graph })
  -- `await_unit` finds a dirty unit with no running round.
  spawn :
      (p : ℕ) (ds : List ℕ)
      → is_dirty w.graph p ≡ true
      → is_compiling w.graph p ≡ false
      → Step w (spawned w (spawn_unit p ds w.graph))
  -- A dependency failed.
  fail :
      (before after : List UnitTask) (t : UnitTask)
      → w.tasks ≡ before ++ (t ∷ after)
      → Step w (record w { graph = drop_guard t failed w.graph; tasks = before ++ after })
  -- The round was cancelled and the frame of its task unwinds.
  unwind :
      (before after : List UnitTask) (t : UnitTask)
      → w.tasks ≡ before ++ (t ∷ after)
      → (contains w.graph.cancelled t.token ≡ true) ⊎ (w.graph.closing ≡ true)
      → Step w (record w { graph = drop_guard t stale w.graph; tasks = before ++ after })
  dispatched :
      (before after : List UnitTask) (t : UnitTask) (ok : Bool)
      → w.tasks ≡ before ++ (t ∷ after)
      → Step w (record w { graph = finish_dispatch t ok w.graph; tasks = before ++ after })
  updated :
      (p : ℕ) (s : Graph × List ℕ) → update p w.graph ≡ some s → Step w (record w { graph = s.0 })
  cancelled_all : Step w (record w { graph = cancel_all w.graph })
  -- A check wakes up.
  check :
      (before after : List ℕ) (p : ℕ)
      → w.graph.checks ≡ before ++ (p ∷ after)
      → Step w
          (record w { graph = zero_interest_check p (record w.graph { checks = before ++ after }) })
  -- `tasks.cancel()` in `shutdown`, which ends the sleeping checks too.
  shut_down : Step w (record w { graph = record w.graph { closing = true; checks = [] } })

pub data Reachable : World → Type 0 where
  start : Reachable initial
  step : {w w' : World} → Reachable w → Step w w' → Reachable w'

-- The references that tasks and requests hold on a unit.
unfoldable pub held_tasks : ℕ → List UnitTask → ℕ
held_tasks n [] = 0
held_tasks n (t ∷ ts) = count n t.acquired + held_tasks n ts

unfoldable pub held_requests : ℕ → List (List ℕ) → ℕ
held_requests n [] = 0
held_requests n (ids ∷ rs) = count n ids + held_requests n rs

abbrev pub interest : World → ℕ → ℕ
interest w n = held_requests n w.requests + held_tasks n w.tasks
