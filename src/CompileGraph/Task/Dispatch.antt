-- ===== src/CompileGraph/Task/Dispatch.antt =====
-- What the end of a dispatch does to the unit and to its round, and why a result that an update
-- overtook is dropped (src/server/compiler/compile_graph.cpp).
use mathlib.Core.Option
use mathlib.Core.Bool.{or-true}
use clice.Base.{
  u64, ℕ, ◌+◌, ◌%◌, ◌≡◌, refl, sym, ◌∙◌, ap, subst, Bool, true, false, Option, none, some, List,
  arith, ◌&&◌, if◌then◌else◌, ◌==◌, nat_equality, nat_beq_iff, eq_self, contains, Bool-cases,
  Option-cases, inl, inr,
}
use clice.CompileGraph.State.{
  Outcome, stale, success, failed, CompileUnit, Graph, find_unit, edit, has_unit, completed,
}
use clice.CompileGraph.State.Shape.{shape, shape_of, shape-edit, has_unit-edit}
use clice.CompileGraph.Update.{dependencies_of, update}
use clice.CompileGraph.State.View.{strip, view}
use clice.CompileGraph.Update.Progress.{settled}
use clice.CompileGraph.Update.Reaches.{Dirties, update-Dirties}
use clice.CompileGraph.Task.{UnitTask, drop_guard, finish_dispatch}
use clice.CompileGraph.Task.Flight.{has_round}
use clice.CompileGraph.Task.Guard.{Drops, drop_guard-Drops, outcome_of}

-- The outcome of a round whose unit has generation `now` when the dispatch ends.
unfoldable pub settle : Bool → Bool → Outcome
settle false same = failed
settle true false = stale
settle true true = success

pub record Settles (t : UnitTask) (o : Outcome) (dirty : Bool) (h : Graph) : Type 0 where
  pub outcome : outcome_of h t.round ≡ some o
  pub completion : completed h t.round ≡ true
  pub off : (shape h t.path_id).compiling ≡ false
  pub flag : (shape h t.path_id).dirty ≡ dirty

Drops-Settles :
    (t : UnitTask) (o : Outcome) (g h : Graph)
    → Drops t o g h
    → Settles t o (shape g t.path_id).dirty h
Drops-Settles t o g h d = record {
  outcome = d.outcomes t.round ∙ rw (eq_self t.round) refl;
  completion = d.completed_after t.round ∙ rw (eq_self t.round) refl;
  off = ap (λ u. u.compiling) (d.shapes t.path_id) ∙ rw (eq_self t.path_id) refl;
  flag = ap (λ u. u.dirty) (d.shapes t.path_id) ∙ rw (eq_self t.path_id) refl;
}

module _ (t : UnitTask) (g : Graph) (u : CompileUnit) (here : find_unit g t.path_id ≡ some u)
    (known : has_round g t.round ≡ true) where
  present : has_unit g t.path_id ≡ true
  unfolding has_unit
  present = ground arith

  own_dirty : (shape g t.path_id).dirty ≡ u.dirty
  own_dirty = ap (λ o. (shape_of o).dirty) here

  dropped : (o : Outcome) → Settles t o u.dirty (drop_guard t o g)
  dropped o =
      subst (λ b. Settles t o b (drop_guard t o g)) own_dirty
        (Drops-Settles t o g _ (drop_guard-Drops t o g present known))

  cleaned : Graph
  cleaned = edit t.path_id (λ u. record u { dirty = false }) g

  cleaned-rounds : has_round cleaned t.round ≡ true
  unfolding cleaned has_round edit
  cleaned-rounds = known

  dropped_clean : Settles t success false (drop_guard t success cleaned)
  unfolding cleaned
  dropped_clean =
      subst (λ b. Settles t success b (drop_guard t success cleaned))
        (ap (λ u. u.dirty)
            (shape-edit t.path_id (λ u. record u { dirty = false }) g t.path_id present (λ u. refl))
          ∙ rw (eq_self t.path_id) refl)
        (Drops-Settles t success cleaned _ (
          drop_guard-Drops t success cleaned
            (has_unit-edit t.path_id (λ u. record u { dirty = false }) g t.path_id ∙ present)
            cleaned-rounds))

  -- The end of the dispatch of a task whose unit and round are there completes the round, ends the
  -- compilation of the unit, and publishes a failure for a failed dispatch, a success when the
  -- generation is still the one that the task read, and a stale result otherwise; only the success
  -- clears the dirty flag.
  pub finish_dispatch-Settles :
      (ok : Bool)
      → Settles t
          (settle ok (u.generation == t.generation))
          (if ok && (u.generation == t.generation) then false else u.dirty)
          (finish_dispatch t ok g)
  unfolding settle finish_dispatch cleaned
  finish_dispatch-Settles false = dropped failed
  finish_dispatch-Settles true = elim (Bool-cases (u.generation == t.generation)) [
    | inl same ↦ rw (here, finish_dispatch, same) dropped_clean
    | inr older ↦ rw (here, finish_dispatch, older) (dropped stale)
  ]

same_round :
    (g h : Graph) (r : ℕ) → h.rounds ≡ g.rounds → has_round g r ≡ true → has_round h r ≡ true
unfolding has_round
same_round g h r e known = rw e known

-- A unit of the updated graph that the update dirtied.
overtaken :
    (g : Graph) (p : ℕ) (s : Graph × List ℕ) (n : ℕ) (u : CompileUnit)
    → Dirties g p s
    → find_unit g n ≡ some u
    → contains s.1 n ≡ true
    → (v : CompileUnit) × (find_unit s.0 n ≡ some v)
      × (v.dirty ≡ true)
      × (v.generation ≡ (u.generation + 1) % u64)
overtaken g p s n u d here hit = elim (Option-cases (find_unit s.0 n)) [
  | inl gone ↦ absurd (lost (sym (ap (Option.map strip) gone) ∙ seen))
  | inr (v, e) ↦
      let same = sym (ap (Option.map strip) e) ∙ seen in
      (v, e, ap flag same ∙ rw hit (or-true u.dirty), ap age same ∙ rw hit refl)
]
  where
    seen : view s.0 n ≡ some (settled p (dependencies_of g p) n true (contains s.1 n) (strip u))
    seen = d.units n ∙ rw here refl

    lost : {w : CompileUnit} → none ≡ some w → ⊥
    lost h = absurd (ground arith)

    flag : Option CompileUnit → Bool
    flag o = elim o [ none ↦ false | some w ↦ w.dirty ]

    age : Option CompileUnit → ℕ
    age o = elim o [ none ↦ 0 | some w ↦ w.generation ]

next_generation : (a b : ℕ) → b ≡ a → ((a + 1) % u64 == b) ≡ false
next_generation a b e = elim (Bool-cases ((a + 1) % u64 == b)) [
  | inl same ↦ absurd (apart ((nat_beq_iff ((a + 1) % u64) b).0 same))
  | inr other ↦ other
]
  where
    apart : (a + 1) % u64 ≡ b → ⊥
    apart h = omega (arith, e, h)

-- An update that dirties a unit while a dispatch of that unit runs keeps this dispatch from a success:
-- the end of a dispatch that succeeded completes the round with a stale outcome, the end of one that
-- failed completes it with a failure, and either way the unit stays dirty and is not compiling.
pub update-finish_dispatch :
    (g : Graph) (p : ℕ) (s : Graph × List ℕ) (t : UnitTask) (u : CompileUnit) (ok : Bool)
    → update p g ≡ some s
    → find_unit g t.path_id ≡ some u
    → t.generation ≡ u.generation
    → contains s.1 t.path_id ≡ true
    → has_round g t.round ≡ true
    → Settles t (if ok then stale else failed) true (finish_dispatch t ok s.0)
unfolding settle
update-finish_dispatch g p s t u ok e here own hit known =
    let (s', e', d') = update-Dirties g p in
    let d = subst (λ r. Dirties g p r) (found_eq (sym e' ∙ e)) d' in
    let (v, there, dirty, later) = overtaken g p s t.path_id u d here hit in
    let older = ap (λ x. x == t.generation) later ∙ next_generation u.generation t.generation own in
    settled_as ok v.dirty (v.generation == t.generation) dirty older
      (finish_dispatch-Settles t s.0 v there (rounds d) ok)
  where
    settled_as :
        (ok dirty same : Bool)
        → dirty ≡ true
        → same ≡ false
        → Settles t
            (settle ok same)
            (if ok && same then false else dirty)
            (finish_dispatch t ok s.0)
        → Settles t (if ok then stale else failed) true (finish_dispatch t ok s.0)
    settled_as true true false is_dirty older h = h
    settled_as false true same is_dirty older h = h
    settled_as true dirty true is_dirty older h = absurd (ground arith)
    settled_as ok false same is_dirty older h = absurd (ground arith)

    found_eq : {x y : Graph × List ℕ} → some x ≡ some y → x ≡ y
    found_eq h = cc

    rounds : Dirties g p s → has_round s.0 t.round ≡ true
    rounds d = same_round g s.0 t.round d.rounds known
