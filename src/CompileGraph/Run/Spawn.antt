-- ===== src/CompileGraph/Run/Spawn.antt =====
-- The invariant of the event loop over `spawn_unit` and the end of a dispatch
-- (src/server/compiler/compile_graph.cpp).
use clice.Base.{
  ℕ, ◌≡◌, refl, sym, ◌∙◌, ap, subst, Bool, true, false, Option, none, some, List, [], ◌∷◌, arith,
  if◌then◌else◌, nat_equality, eq_self, Bool-cases, inl, inr, contains, count, adjust-NodupKeys,
}
use clice.CompileGraph.State.{
  failed, CompileUnit, Graph, find_unit, edit, has_unit, refcount, completed, ensure_resolved,
}
use clice.CompileGraph.State.Shape.{shape, shape-edit, has_unit-edit, shape-edit_field}
use clice.CompileGraph.Interest.Keeps.{refcount-edit}
use clice.CompileGraph.Interest.Resolve.{ensure_resolved-Resolves}
use clice.CompileGraph.Task.{
  UnitTask, open_round, complete, acquire_dependencies, start_body, spawn_unit,
}
use clice.CompileGraph.Task.Flight.{SameFlight-Flight, has_round}
use clice.CompileGraph.Task.Rounds.{open_round-Flight, open_round-has_round}
use clice.CompileGraph.Task.Guard.{closed_unit, complete-completed, complete-has_round}
use clice.CompileGraph.Task.Close.{close-Flight}
use clice.CompileGraph.Run.{World, spawned, held_tasks, interest}
use clice.CompileGraph.Run.Account.{
  Account, acquire_all-Account, ensure_resolved-Account, drop_guard-Account,
}

abbrev pub Sound : World → Type 0
Sound w = Account w.graph w.tasks (interest w)

module _ {g : Graph} {ts : List UnitTask} {held : ℕ → ℕ} (a : Account g ts held) where
  pub edit_dirty-Account : (p : ℕ) → Account (edit p (λ u. record u { dirty = false }) g) ts held
  unfolding edit
  edit_dirty-Account p = record {
    flight =
        SameFlight-Flight
          (record {
            compiling = λ n.
                shape-edit_field (λ u. u.compiling) p (λ u. record u { dirty = false }) g n
                  (λ u. refl);
            round = λ n.
                shape-edit_field (λ u. u.round) p (λ u. record u { dirty = false }) g n (λ u. refl);
            rounds = refl;
            next_round = refl;
          })
          a.flight;
    counted = λ n. refcount-edit p (λ u. record u { dirty = false }) g n (λ u. refl) ∙ a.counted n;
    present = λ n h. has_unit-edit p (λ u. record u { dirty = false }) g n ∙ a.present n h;
    nodup = adjust-NodupKeys p (λ u. record u { dirty = false }) g.units a.nodup;
  }

  pub open_round-Account :
      (t : UnitTask)
      → has_unit g t.path_id ≡ true
      → (shape g t.path_id).compiling ≡ false
      → t.round ≡ g.next_round
      → Account (open_round t.path_id g) (t ∷ ts) held
  unfolding open_round has_unit refcount
  open_round-Account t present off own = record {
    flight = open_round-Flight t present off own a.flight;
    counted = λ n.
        refcount-edit t.path_id (λ u. record u { compiling = true; round = some g.next_round }) g n
          (λ u. refl)
        ∙ a.counted n;
    present = λ n h.
        has_unit-edit t.path_id (λ u. record u { compiling = true; round = some g.next_round }) g n
        ∙ a.present n h;
    nodup = adjust-NodupKeys t.path_id _ g.units a.nodup;
  }

open_round-has_unit : (p : ℕ) (g : Graph) (n : ℕ) → has_unit (open_round p g) n ≡ has_unit g n
unfolding open_round has_unit
open_round-has_unit p g n =
    has_unit-edit p (λ u. record u { compiling = true; round = some g.next_round }) g n

-- The roll-back of a refused spawn.
rollback-Account :
    {g : Graph} {ts : List UnitTask} {held : ℕ → ℕ} (t : UnitTask)
    → Account g (t ∷ ts) held
    → has_unit g t.path_id ≡ true
    → has_round g t.round ≡ true
    → Account (complete t.round (edit t.path_id closed_unit g)) ts held
unfolding complete edit has_unit refcount completed has_round
rollback-Account {g} {ts} t a present known = record {
  flight = close-Flight [] ts t a.flight (record {
    shapes = λ n. shape-edit t.path_id closed_unit g n present (λ u. refl);
    completed_after = λ r. complete-completed t.round (edit t.path_id closed_unit g) r known;
    has_rounds = λ r. complete-has_round t.round (edit t.path_id closed_unit g) r;
    next_round = refl;
  });
  counted = λ n. refcount-edit t.path_id closed_unit g n (λ u. refl) ∙ a.counted n;
  present = λ n h. has_unit-edit t.path_id closed_unit g n ∙ a.present n h;
  nodup = adjust-NodupKeys t.path_id closed_unit g.units a.nodup;
}

module _ (w : World) (s : Sound w) (p : ℕ) where
  abbrev g : Graph
  g = w.graph

  abbrev held : ℕ → ℕ
  held = interest w

  -- A started task holds what it acquired, or it is gone.
  acquire_dependencies-Sound :
      (g' : Graph) (t : UnitTask)
      → Account g' (t ∷ w.tasks) held
      → Account g' (record t { acquired = [] } ∷ w.tasks) held
      → Sound (spawned w (let (h, r) = acquire_dependencies t g' in (h, true, r)))
  unfolding acquire_dependencies held_tasks count
  acquire_dependencies-Sound g' t full bare = elim (Bool-cases (contains t.acquired t.path_id)) [
    | inl self ↦ rw self (
        drop_guard-Account [] w.tasks (record t { acquired = [] }) failed held bare
          (λ n. omega arith))
    | inr other ↦ rw other (acquire_all-Account full t.acquired _ (λ n. omega arith))
  ]

  found : (h : Graph) → has_unit h p ≡ true → (u : CompileUnit) × (find_unit h p ≡ some u)
  unfolding has_unit
  found h e = ground arith

  start_body-Sound :
      (g' : Graph) (r token : ℕ) (ds : List ℕ)
      → ((t : UnitTask) → t.path_id ≡ p → t.round ≡ r → Account g' (t ∷ w.tasks) held)
      → Sound (spawned w (let (h, t) = start_body p r token ds g' in (h, true, t)))
  unfolding start_body
  start_body-Sound g' r token ds opened =
      let (u, e) = found (ensure_resolved p ds g') (ensure_resolved-Resolves p ds g').found in
      rw (e, start_body)
        (acquire_dependencies-Sound (ensure_resolved p ds g') _
          (ensure_resolved-Account (opened _ refl refl) p ds)
          (ensure_resolved-Account (opened _ refl refl) p ds))

  either :
      (b : Bool) (x y : Graph × Bool × Option UnitTask)
      → Sound (spawned w x)
      → Sound (spawned w y)
      → Sound (spawned w (if b then x else y))
  either true x y hx hy = hx
  either false x y hx hy = hy

  refused : Graph × Bool × Option UnitTask
  refused = (complete g.next_round (edit p closed_unit (open_round p g)), false, none)

  accepted : List ℕ → CompileUnit → Graph × Bool × Option UnitTask
  accepted ds u =
      let (h, t) = start_body p g.next_round u.source ds (open_round p g) in (h, true, t)

  spawn_unit_eq :
      (ds : List ℕ) (u : CompileUnit)
      → find_unit g p ≡ some u
      → spawn_unit p ds g ≡ (if g.closing then refused else accepted ds u)
  unfolding spawn_unit refused accepted
  spawn_unit_eq ds u e = rw (e, spawn_unit) refl

  opened :
      has_unit g p ≡ true
      → (shape g p).compiling ≡ false
      → (t : UnitTask) → t.path_id ≡ p
      → t.round ≡ g.next_round
      → Account (open_round p g) (t ∷ w.tasks) held
  opened present off t here own =
      subst (λ q. Account (open_round q g) (t ∷ w.tasks) held) here
        (open_round-Account s t (ap (has_unit g) here ∙ present)
          (ap (λ q. (shape g q).compiling) here ∙ off) own)

  refused-Sound : has_unit g p ≡ true → (shape g p).compiling ≡ false → Sound (spawned w refused)
  unfolding refused
  refused-Sound present off =
      rollback-Account
        (record { path_id = p; round = g.next_round; acquired = []; generation = 0; token = 0 })
        (opened present off _ refl refl) (opened_unit present)
        (open_round-has_round p g g.next_round ∙ rw (eq_self g.next_round))
    where
      opened_unit : has_unit g p ≡ true → has_unit (open_round p g) p ≡ true
      opened_unit h = open_round-has_unit p g p ∙ h

  -- A spawn for a unit that does not compile.
  pub spawn_unit-Sound :
      (ds : List ℕ)
      → has_unit g p ≡ true
      → (shape g p).compiling ≡ false
      → Sound (spawned w (spawn_unit p ds g))
  unfolding accepted
  spawn_unit-Sound ds present off =
      let (u, e) = found g present in
      subst (λ x. Sound (spawned w x)) (sym (spawn_unit_eq ds u e))
        (either g.closing refused (accepted ds u) (refused-Sound present off)
          (start_body-Sound (open_round p g) g.next_round u.source ds (opened present off)))
