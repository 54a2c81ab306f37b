-- ===== src/CompileGraph/Run/Invariant.antt =====
-- Every step of the event loop keeps the account of tasks and interest
-- (src/server/compiler/compile_graph.cpp).
use clice.Base.{
  u32, ℕ, ◌+◌, ◌%◌, ◌≡◌, refl, sym, ◌∙◌, ap, subst, Bool, true, false, Option, none, some, List, [],
  ◌∷◌, ◌++◌, arith, not, ◌||◌, lookup, if◌then◌else◌, ◌==◌, nat_equality, Bool-cases, inl, inr,
  count, Option-cases, all_values_of_lookup,
}
use clice.CompileGraph.State.{
  Outcome, stale, success, failed, CompileUnit, Graph, find_unit, has_unit, refcount, is_dirty,
  is_compiling, empty_graph, idle, consistent, in_flight, round_done,
}
use clice.CompileGraph.State.Shape.{shape, shape_of}
use clice.CompileGraph.Interest.{acquire_all, release_all}
use clice.CompileGraph.Interest.Keeps.{cancel_all-Quiet, zero_interest_check-Quiet}
use clice.CompileGraph.Update.Reaches.{update-Dirties}
use clice.CompileGraph.Task.{UnitTask, drop_guard, spawn_unit, finish_dispatch}
use clice.CompileGraph.Task.Flight.{Flight, running, SameFlight-Flight}
use clice.CompileGraph.Run.{
  World, spawned, initial, Step, request, end_request, resolve, spawn, fail, unwind, dispatched,
  updated, cancelled_all, check, shut_down, Reachable, start, step, held_tasks, held_requests,
  interest,
}
use clice.CompileGraph.Run.Account.{
  Account, Quiet-Account, acquire_all-Account, release_all-Account, ensure_resolved-Account,
  update-Account, drop_guard-Account,
}
use clice.CompileGraph.Run.Spawn.{Sound, edit_dirty-Account, spawn_unit-Sound}

held_tasks-split :
    (n : ℕ) (before after : List UnitTask) (t : UnitTask)
    → held_tasks n (before ++ (t ∷ after)) ≡ held_tasks n (before ++ after) + count n t.acquired
unfolding held_tasks
held_tasks-split n [] after t = omega arith
held_tasks-split n (x ∷ before) after t = omega (arith, held_tasks-split n before after t)

held_requests-split :
    (n : ℕ) (before after : List (List ℕ)) (ids : List ℕ)
    → held_requests n (before ++ (ids ∷ after)) ≡ held_requests n (before ++ after) + count n ids
unfolding held_requests
held_requests-split n [] after ids = omega arith
held_requests-split n (x ∷ before) after ids = omega (arith, held_requests-split n before after ids)

found_eq {ℓ} : {A : Type ℓ} {x y : A} → some x ≡ some y → x ≡ y
found_eq h = cc

absent : {r : ℕ} → none ≡ some r → ⊥
absent h = absurd (ground arith)

empty-Sound : Sound initial
unfolding held_tasks held_requests empty_graph running refcount lookup
empty-Sound = record {
  flight = record {
    single = λ n. refl;
    owned = tt;
    stored = λ n r h. absurd (absent h);
    finished = λ n r h. absurd (absent h);
    begun = λ n h. absurd (ground arith);
    fresh = λ n r h. absurd (absent h);
    distinct = λ m n r h h'. absurd (absent h);
  };
  counted = λ n. omega arith;
  present = λ n h. absurd (omega arith);
  nodup = tt;
}

-- What the account does not read.
same_units-Account :
    (g h : Graph) (ts : List UnitTask) (held : ℕ → ℕ)
    → h.units ≡ g.units
    → h.rounds ≡ g.rounds
    → h.next_round ≡ g.next_round
    → Account g ts held
    → Account h ts held
unfolding has_unit refcount
same_units-Account g h ts held e rounds next a = record {
  flight =
      SameFlight-Flight
        (record {
          compiling = λ n. rw e refl;
          round = λ n. rw e refl;
          rounds = rounds;
          next_round = next;
        })
        a.flight;
  counted = λ n. rw e (a.counted n);
  present = λ n k. rw e (a.present n k);
  nodup = rw e a.nodup;
}

dirty-has_unit : (g : Graph) (p : ℕ) → is_dirty g p ≡ true → has_unit g p ≡ true
unfolding is_dirty has_unit
dirty-has_unit g p h = ground arith

compiling_shape : (g : Graph) (p : ℕ) → is_compiling g p ≡ false → (shape g p).compiling ≡ false
unfolding is_compiling
compiling_shape g p h = ground arith

module _ (w : World) (s : Sound w) where
  -- A task leaves, with what it holds.
  module _ (before after : List UnitTask) (t : UnitTask) (e : w.tasks ≡ before ++ (t ∷ after)) where
    split : Account w.graph (before ++ (t ∷ after)) (interest w)
    split = subst (λ ts. Account w.graph ts (interest w)) e s

    less :
        (n : ℕ)
        → interest w n
          ≡ held_requests n w.requests + held_tasks n (before ++ after) + count n t.acquired
    less n = rw e (omega (arith, held_tasks-split n before after t))

    drop_guard-Sound :
        (o : Outcome) → Sound (record w { graph = drop_guard t o w.graph; tasks = before ++ after })
    drop_guard-Sound o = drop_guard-Account before after t o _ split less

    finish_dispatch-Sound :
        (ok : Bool)
        → Sound (record w { graph = finish_dispatch t ok w.graph; tasks = before ++ after })
    unfolding finish_dispatch
    finish_dispatch-Sound false = drop_guard-Sound failed
    finish_dispatch-Sound true = elim (Option-cases (find_unit w.graph t.path_id)) [
      | inl h ↦ rw (h, finish_dispatch) (drop_guard-Sound stale)
      | inr (u, h) ↦ elim (Bool-cases (u.generation == t.generation)) [
        | inl same ↦
            rw (h, finish_dispatch, same)
              (drop_guard-Account before after t success _ (edit_dirty-Account split t.path_id)
                less)
        | inr older ↦ rw (h, finish_dispatch, older) (drop_guard-Sound stale)
      ]
    ]

  -- A request leaves.
  end_request-Sound :
      (before after : List (List ℕ)) (ids : List ℕ)
      → w.requests ≡ before ++ (ids ∷ after)
      → Sound (record w { graph = release_all ids w.graph; requests = before ++ after })
  end_request-Sound before after ids e =
      release_all-Account s ids _
        (λ n. rw e (omega (arith, held_requests-split n before after ids)))

  request-Sound :
      (ids : List ℕ)
      → Sound (record w { graph = acquire_all ids w.graph; requests = ids ∷ w.requests })
  unfolding held_requests
  request-Sound ids = acquire_all-Account s ids _ (λ n. omega arith)

  spawn-Sound :
      (p : ℕ) (ds : List ℕ)
      → is_dirty w.graph p ≡ true
      → is_compiling w.graph p ≡ false
      → Sound (spawned w (spawn_unit p ds w.graph))
  spawn-Sound p ds dirty off =
      spawn_unit-Sound w s p ds (dirty-has_unit w.graph p dirty) (compiling_shape w.graph p off)

pub step-Sound : {w w' : World} → Sound w → Step w w' → Sound w'
step-Sound {w} s (request ids) = request-Sound w s ids
step-Sound {w} s (end_request before after ids e) = end_request-Sound w s before after ids e
step-Sound {w} s (resolve p ds) = ensure_resolved-Account s p ds
step-Sound {w} s (spawn p ds dirty off) = spawn-Sound w s p ds dirty off
step-Sound {w} s (fail before after t e) = drop_guard-Sound w s before after t e failed
step-Sound {w} s (unwind before after t e why) = drop_guard-Sound w s before after t e stale
step-Sound {w} s (dispatched before after t ok e) = finish_dispatch-Sound w s before after t e ok
step-Sound {w} s (updated p r e) =
    let (r', e', d) = update-Dirties w.graph p in
    subst (λ h. Account h w.tasks (interest w)) (ap (λ x. x.0) (found_eq (sym e' ∙ e)))
      (update-Account s d)
step-Sound {w} s cancelled_all = Quiet-Account s (cancel_all-Quiet w.graph)
step-Sound {w} s (check before after p e) =
    Quiet-Account (same_units-Account w.graph _ w.tasks (interest w) refl refl refl s)
      (zero_interest_check-Quiet p _)
step-Sound {w} s shut_down = same_units-Account w.graph _ w.tasks (interest w) refl refl refl s

pub Reachable-Sound : {w : World} → Reachable w → Sound w
Reachable-Sound start = empty-Sound
Reachable-Sound (step r s) = step-Sound (Reachable-Sound r) s

-- In every world that the event loop reaches, the reference count of a unit is, as a `uint32_t`, the
-- number of times that live tasks and live requests acquired it.
pub refcount-interest :
    (w : World) → Reachable w → (n : ℕ) → refcount w.graph n ≡ interest w n % u32
refcount-interest w r n = (Reachable-Sound r).counted n

compiling_unit : (g : Graph) (n : ℕ) → is_compiling g n ≡ (shape g n).compiling
unfolding is_compiling
compiling_unit g n = ground arith

-- In every world that the event loop reaches, a unit is marked as compiling exactly while one task
-- runs for it, and no unit has two tasks.
pub running-is_compiling :
    (w : World)
    → Reachable w
    → (n : ℕ) → running n w.tasks ≡ (if is_compiling w.graph n then 1 else 0)
running-is_compiling w r n = (Reachable-Sound r).flight.single n ∙ rw (compiling_unit w.graph n)

-- A unit in the table, in a world with its flights.
module _ {g : Graph} {ts : List UnitTask} (f : Flight g ts) (n : ℕ) (u : CompileUnit)
    (e : find_unit g n ≡ some u) where
  own_compiling : (shape g n).compiling ≡ u.compiling
  own_compiling = ap (λ o. (shape_of o).compiling) e

  own_round : (shape g n).round ≡ u.round
  own_round = ap (λ o. (shape_of o).round) e

  unit_consistent : not u.compiling || in_flight g u.round ≡ true
  unfolding in_flight
  unit_consistent = elim (Bool-cases u.compiling) [
    | inl on ↦
        let (r, h) = f.begun n (own_compiling ∙ on) in
        rw (on, sym own_round ∙ h, f.finished n r h, own_compiling, on) refl
    | inr off ↦ rw off refl
  ]

  off_round_done : u.compiling ≡ false → round_done g u.round ≡ true
  unfolding round_done
  off_round_done off = elim (Option-cases u.round) [
    | inl h ↦ rw h refl
    | inr (r, h) ↦ rw (h, f.finished n r (own_round ∙ h), own_compiling, off) refl
  ]

own_refcount :
    (g : Graph) (n : ℕ) (u : CompileUnit) → find_unit g n ≡ some u → refcount g n ≡ u.refcount
unfolding refcount
own_refcount g n u e = ap (λ (o : Option CompileUnit). elim o [ none ↦ 0 | some v ↦ v.refcount ]) e

no_flag : (b : Bool) (k : ℕ) → k ≡ 0 → k ≡ (if b then 1 else 0) → b ≡ false
no_flag b k z h = ground arith

-- In every world that the event loop reaches, `consistent` answers true: a unit that compiles has a
-- round that is not completed.
pub consistent_lem : (w : World) → Reachable w → consistent w.graph ≡ true
unfolding consistent
consistent_lem w r =
    all_values_of_lookup _ w.graph.units s.nodup λ n u e. unit_consistent s.flight n u e
  where
    s : Sound w
    s = Reachable-Sound r

-- A world that the event loop reaches and in which no task and no request is left is idle.
pub idle_lem : (w : World) → Reachable w → w.tasks ≡ [] → w.requests ≡ [] → idle w.graph ≡ true
unfolding idle running held_tasks held_requests
idle_lem w r t q = all_values_of_lookup _ w.graph.units s.nodup λ n u e.
    (let off = sym (own_compiling s.flight n u e) ∙ no_flag _ _ (none_run n) (s.flight.single n) in
      let free = sym (own_refcount w.graph n u e) ∙ (s.counted n ∙ unheld n) in
      rw (off, free, off_round_done s.flight n u e off) refl)
  where
    s : Sound w
    s = Reachable-Sound r

    none_run : (n : ℕ) → running n w.tasks ≡ 0
    none_run n = rw t refl

    unheld : (n : ℕ) → interest w n % u32 ≡ 0
    unheld n = rw (t, q) refl
