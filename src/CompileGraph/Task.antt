-- ===== src/CompileGraph/Task.antt =====
-- src/server/compiler/compile_graph.cpp: the task of a unit, cut at the points where it suspends
-- (`spawn_unit`, `unit_body`, the destructor of `UnitGuard`), and `await_unit`.
pub mod Flight
pub mod Rounds
pub mod Guard
pub mod Close
pub mod Dispatch
use clice.Base.{
  ℕ, suc, Bool, true, false, not, ◌&&◌, Option, none, some, List, [], ◌∷◌, insert, adjust, contains,
  ◌==◌, nat_equality, if◌then◌else◌,
}
use clice.CompileGraph.State.{
  Outcome, stale, success, failed, CompileUnit, Graph, find_unit, edit, completed, ensure_resolved,
  is_dirty, is_compiling,
}
use clice.CompileGraph.Interest.{acquire_all, release_all}
use clice.CompileGraph.WaitCycle.{has_wait_cycle}

-- What a suspended `unit_body` holds: its guard, the generation that it read, and its token.
pub record UnitTask : Type 0 where
  pub path_id : ℕ
  pub round : ℕ
  pub acquired : List ℕ
  pub generation : ℕ
  pub token : ℕ

-- `round->outcome = outcome`.
unfoldable pub set_outcome : ℕ → Outcome → Graph → Graph
set_outcome r o g = record g { rounds = adjust r (λ round. record round { outcome = o }) g.rounds }

-- `round->completion.set()`.
unfoldable pub complete : ℕ → Graph → Graph
complete r g = record g { rounds = adjust r (λ round. record round { completion = true }) g.rounds }

-- The destructor of `UnitGuard`.
unfoldable pub drop_guard : UnitTask → Outcome → Graph → Graph
unfolding set_outcome complete edit release_all
drop_guard t o g = complete t.round (
    release_all t.acquired
      (edit t.path_id (λ u. record u { compiling = false }) (set_outcome t.round o g)))

-- The part of `spawn_unit` before the spawn: a new round.
unfoldable pub open_round : ℕ → Graph → Graph
unfolding edit
open_round p g = record (edit p (λ u. record u { compiling = true; round = some g.next_round }) g) {
  rounds = insert g.next_round (record { completion = false; outcome = stale }) g.rounds;
  next_round = suc g.next_round;
}

-- The self-dependency test of `unit_body` and the loop that acquires the dependencies in `acquired`.
-- `none` is a task that ended at once.
unfoldable pub acquire_dependencies : UnitTask → Graph → Graph × Option UnitTask
unfolding drop_guard acquire_all
acquire_dependencies t g =
    if contains t.acquired t.path_id
    then (drop_guard (record t { acquired = [] }) failed g, none)
    else (acquire_all t.acquired g, some t)

-- `unit_body` up to its first suspension.
unfoldable pub start_body : ℕ → ℕ → ℕ → List ℕ → Graph → Graph × Option UnitTask
unfolding ensure_resolved acquire_dependencies
start_body p r token ds g =
    let g' = ensure_resolved p ds g in
    elim (find_unit g' p) [
      | none ↦ (g', none)
      | some u ↦
          acquire_dependencies
            (record {
              path_id = p;
              round = r;
              acquired = u.dependencies;
              generation = u.generation;
              token = token;
            })
            g'
    ]

-- The graph, what `spawn_unit` returns, and the task that now runs.
unfoldable pub spawn_unit : ℕ → List ℕ → Graph → Graph × Bool × Option UnitTask
unfolding open_round start_body complete edit
spawn_unit p ds g = elim (find_unit g p) [
  | none ↦ (g, false, none)
  | some u ↦
      let g' = open_round p g in
      if g.closing
      then (complete g.next_round (edit p (λ u. record u { compiling = false }) g'), false, none)
      else (let (g'', t) = start_body p g.next_round u.source ds g' in (g'', true, t))
]

-- The rest of `unit_body` behind `co_await dispatch`, with the destructor of the guard.
unfoldable pub finish_dispatch : UnitTask → Bool → Graph → Graph
unfolding drop_guard edit
finish_dispatch t false g = drop_guard t failed g
finish_dispatch t true g = elim (find_unit g t.path_id) [
  | none ↦ drop_guard t stale g
  | some u ↦
      if u.generation == t.generation
      then drop_guard t success (edit t.path_id (λ u. record u { dirty = false }) g)
      else drop_guard t stale g
]

-- What `await_unit` does next: it answers, or it waits for a round.
pub data Await : Type 0 where
  answer : Bool → Await
  wait : ℕ → Await

-- One round of the loop of `await_unit`, up to the wait, with the task that it may spawn.
unfoldable pub await_round : ℕ → Option ℕ → Graph → Await
unfolding completed has_wait_cycle
await_round p waiter g = elim (find_unit g p) [
  | none ↦ answer false
  | some u ↦ elim u.round [
    | none ↦ answer false
    | some r ↦ elim waiter [
      | none ↦ wait r
      | some w ↦ if completed g r then wait r else (elim (has_wait_cycle g p w) [
        | some true ↦ answer false
        | some false ↦ wait r
        | none ↦ answer false
      ])
    ]
  ]
]

unfoldable pub await_unit : ℕ → Option ℕ → List ℕ → Graph → Graph × Option UnitTask × Await
unfolding is_dirty is_compiling spawn_unit await_round
await_unit p waiter ds g =
    if not (is_dirty g p)
    then (g, none, answer true)
    else if is_compiling g p
    then (g, none, await_round p waiter g)
    else (let (g', spawned, t) = spawn_unit p ds g in
        if spawned then (g', t, await_round p waiter g') else (g', none, answer false))

-- The switch on the outcome of the round; `none` is the next round of the loop.
unfoldable pub await_outcome : Outcome → Option Bool
await_outcome success = some true
await_outcome failed = some false
await_outcome stale = none
