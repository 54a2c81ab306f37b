-- ===== src/CompileGraph/Task/Guard.antt =====
-- The destructor of `UnitGuard` (src/server/compiler/compile_graph.cpp).
use mathlib.Core.Option
use clice.Base.{
  u32, ℕ, ◌+◌, ◌%◌, ◌≡◌, refl, ◌∙◌, ap, true, false, Option, some, arith, if◌then◌else◌, ◌==◌,
  nat_equality, nat_beq_iff, lookup, lookup-adjust, NodupKeys, adjust-NodupKeys, ◌||◌, contains,
  count,
}
use clice.CompileGraph.State.{
  Outcome, CompileUnit, Round, Graph, edit, has_unit, completed, refcount,
}
use clice.CompileGraph.State.Shape.{core, shape, shape-edit, has_unit-edit}
use clice.CompileGraph.Interest.{release_all}
use clice.CompileGraph.Interest.Keeps.{Keeps, refcount-edit}
use clice.CompileGraph.Interest.Counts.{release_all-Keeps, release_all-units, refcount-release_all}
use clice.CompileGraph.Task.{UnitTask, set_outcome, complete, drop_guard}
use clice.CompileGraph.Task.Flight.{has_round}

abbrev pub closed_unit : CompileUnit → CompileUnit
closed_unit u = record u { compiling = false }

pub complete-completed :
    (q : ℕ) (g : Graph) (r : ℕ)
    → has_round g q ≡ true
    → completed (complete q g) r ≡ (q == r || completed g r)
unfolding complete completed has_round
complete-completed q g r h = ground (
  arith,
  lookup-adjust q r (λ (round : Round). record round { completion = true }) g.rounds,
  nat_beq_iff q r,
)

pub complete-has_round : (q : ℕ) (g : Graph) (r : ℕ) → has_round (complete q g) r ≡ has_round g r
unfolding complete has_round
complete-has_round q g r =
    ground
      (arith, lookup-adjust q r (λ (round : Round). record round { completion = true }) g.rounds)

set_outcome-completed :
    (q : ℕ) (o : Outcome) (g : Graph) (r : ℕ) → completed (set_outcome q o g) r ≡ completed g r
unfolding set_outcome completed
set_outcome-completed q o g r =
    ground (arith, lookup-adjust q r (λ (round : Round). record round { outcome = o }) g.rounds)

set_outcome-has_round :
    (q : ℕ) (o : Outcome) (g : Graph) (r : ℕ) → has_round (set_outcome q o g) r ≡ has_round g r
unfolding set_outcome has_round
set_outcome-has_round q o g r =
    ground (arith, lookup-adjust q r (λ (round : Round). record round { outcome = o }) g.rounds)

unfoldable pub outcome_of : Graph → ℕ → Option Outcome
outcome_of g r = Option.map (λ round. round.outcome) (lookup r g.rounds)

set_outcome-outcome :
    (q : ℕ) (o : Outcome) (g : Graph) (r : ℕ)
    → has_round g q ≡ true
    → outcome_of (set_outcome q o g) r ≡ (if q == r then some o else outcome_of g r)
unfolding set_outcome outcome_of has_round
set_outcome-outcome q o g r h = ground (
  arith,
  lookup-adjust q r (λ (round : Round). record round { outcome = o }) g.rounds,
  nat_beq_iff q r,
)

complete-outcome : (q : ℕ) (g : Graph) (r : ℕ) → outcome_of (complete q g) r ≡ outcome_of g r
unfolding complete outcome_of
complete-outcome q g r =
    ground
      (arith, lookup-adjust q r (λ (round : Round). record round { completion = true }) g.rounds)

-- `h` is `g` after the guard of `t` published `o`.
pub record Drops (t : UnitTask) (o : Outcome) (g h : Graph) : Type 0 where
  pub shapes :
      (n : ℕ) → shape h n ≡ (if t.path_id == n then core (closed_unit (shape g n)) else shape g n)
  pub completed_after : (r : ℕ) → completed h r ≡ (t.round == r || completed g r)
  pub outcomes : (r : ℕ) → outcome_of h r ≡ (if t.round == r then some o else outcome_of g r)
  pub has_rounds : (r : ℕ) → has_round h r ≡ has_round g r
  pub units : (n : ℕ) → has_unit h n ≡ has_unit g n
  pub counts :
      (n k : ℕ)
      → ((d : ℕ) → contains t.acquired d ≡ true → has_unit g d ≡ true)
      → refcount g n ≡ (k + count n t.acquired) % u32
      → refcount h n ≡ k % u32
  pub next_round : h.next_round ≡ g.next_round
  pub nodup : NodupKeys g.units → NodupKeys h.units

same_rounds :
    (g h : Graph)
    → h.rounds ≡ g.rounds
    → ((r : ℕ) → completed h r ≡ completed g r)
      × ((r : ℕ) → outcome_of h r ≡ outcome_of g r)
      × ((r : ℕ) → has_round h r ≡ has_round g r)
unfolding completed outcome_of has_round
same_rounds g h e = (λ r. rw e, λ r. rw e, λ r. rw e)

-- Members that the view of a unit does not read.
same_units :
    (g : Graph) (q : ℕ) (o : Outcome)
    → ((n : ℕ) → has_unit (set_outcome q o g) n ≡ has_unit g n)
      × ((n : ℕ) → refcount (set_outcome q o g) n ≡ refcount g n)
      × ((n : ℕ) → has_unit (complete q g) n ≡ has_unit g n)
      × ((n : ℕ) → refcount (complete q g) n ≡ refcount g n)
unfolding has_unit refcount set_outcome complete
same_units g q o = (λ n. refl, λ n. refl, λ n. refl, λ n. refl)

-- The destructor of `UnitGuard`, where the unit and the round of the task are there, publishes the
-- outcome, completes the round, clears the compiling flag of that unit only, and takes each acquired
-- reference back where the acquired units are there.
pub drop_guard-Drops :
    (t : UnitTask) (o : Outcome) (g : Graph)
    → has_unit g t.path_id ≡ true
    → has_round g t.round ≡ true
    → Drops t o g (drop_guard t o g)
unfolding drop_guard
drop_guard-Drops t o g present known = record {
  shapes = λ n. keeps.shapes n ∙ shape-edit t.path_id closed_unit published n still (λ u. refl);
  completed_after = λ r.
      complete-completed t.round released r (rounds.2 t.round ∙ stored)
      ∙ ap (λ b. t.round == r || b) (rounds.0 r ∙ set_outcome-completed t.round o g r);
  outcomes = λ r.
      complete-outcome t.round released r ∙ (rounds.1 r ∙ set_outcome-outcome t.round o g r known);
  has_rounds = λ r.
      complete-has_round t.round released r ∙ (rounds.2 r ∙ set_outcome-has_round t.round o g r);
  units = λ n.
      (same_units released t.round o).2 n
      ∙ (release_all-units t.acquired stopped n ∙ stopped-units n);
  counts = λ n k held h.
      (same_units released t.round o).3 n
      ∙ refcount-release_all t.acquired stopped n k (λ d hd. stopped-units d ∙ held d hd)
          (refcount-edit t.path_id closed_unit published n (λ u. refl)
            ∙ ((same_units g t.round o).1 n ∙ h));
  next_round = keeps.next_round;
  nodup = λ h. keeps.nodup (adjust-NodupKeys t.path_id closed_unit g.units h);
}
  where
    published : Graph
    published = set_outcome t.round o g

    stopped : Graph
    stopped = edit t.path_id closed_unit published

    released : Graph
    released = release_all t.acquired stopped

    still : has_unit published t.path_id ≡ true
    still = (same_units g t.round o).0 t.path_id ∙ present

    stored : has_round published t.round ≡ true
    stored = set_outcome-has_round t.round o g t.round ∙ known

    stopped-units : (n : ℕ) → has_unit stopped n ≡ has_unit g n
    stopped-units n = has_unit-edit t.path_id closed_unit published n ∙ (same_units g t.round o).0 n

    keeps : Keeps stopped released
    keeps = release_all-Keeps t.acquired stopped

    rounds :
        ((r : ℕ) → completed released r ≡ completed published r)
        × ((r : ℕ) → outcome_of released r ≡ outcome_of published r)
        × ((r : ℕ) → has_round released r ≡ has_round published r)
    rounds = same_rounds published released keeps.rounds
