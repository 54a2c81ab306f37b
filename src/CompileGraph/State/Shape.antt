-- ===== src/CompileGraph/State/Shape.antt =====
-- A unit without the fields that interest and cancellation write. A missing unit has the shape of a
-- new one, so `units[id]` changes no shape.
use mathlib.Core.Option
use clice.Base.{
  ℕ, ◌≡◌, refl, ◌∙◌, ap, Bool, true, false, Option, none, some, [], arith, lookup-insert,
  if◌then◌else◌, ◌==◌, nat_equality, nat_beq_iff, Option-cases, Bool-cases, inl, inr,
}
use clice.CompileGraph.State.{
  CompileUnit, Graph, find_unit, edit, touch, add_unit, default_unit, has_unit,
}
use clice.CompileGraph.State.View.{find_unit-edit}

abbrev pub core : CompileUnit → CompileUnit
core u = record u { path_id = 0; refcount = 0; zero_check_pending = false; source = 0 }

abbrev pub blank : CompileUnit
blank = record {
  path_id = 0;
  dependencies = [];
  dependents = [];
  resolved = false;
  dirty = true;
  compiling = false;
  refcount = 0;
  zero_check_pending = false;
  generation = 0;
  source = 0;
  round = none;
}

abbrev pub shape_of : Option CompileUnit → CompileUnit
shape_of o = elim o [ none ↦ blank | some u ↦ core u ]

abbrev pub shape : Graph → ℕ → CompileUnit
shape g n = shape_of (find_unit g n)

pub shape-edit_same :
    (p : ℕ) (h : CompileUnit → CompileUnit) (g : Graph) (n : ℕ)
    → ((u : CompileUnit) → core (h u) ≡ core u)
    → shape (edit p h g) n ≡ shape g n
shape-edit_same p h g n keeps =
    ap shape_of (find_unit-edit p h g n) ∙ inner (p == n) (find_unit g n)
  where
    inner :
        (b : Bool) (o : Option CompileUnit)
        → shape_of (if b then Option.map h o else o) ≡ shape_of o
    inner false o = refl
    inner true none = refl
    inner true (some u) = keeps u

-- A write to a unit that is there.
pub shape-edit :
    (p : ℕ) (h : CompileUnit → CompileUnit) (g : Graph) (n : ℕ)
    → has_unit g p ≡ true
    → ((u : CompileUnit) → core (h u) ≡ core (h (core u)))
    → shape (edit p h g) n ≡ (if p == n then core (h (shape g n)) else shape g n)
unfolding has_unit
shape-edit p h g n present keeps =
    ap shape_of (find_unit-edit p h g n) ∙ elim (Bool-cases (p == n)) [
      | inl same ↦ rw (same, ← (nat_beq_iff p n).0 same) (inner (find_unit g p) present)
      | inr other ↦ rw other
    ]
  where
    inner :
        (o : Option CompileUnit)
        → ◌≡◌ {A = Bool} (elim o [ none ↦ false | some u ↦ true ]) true
        → shape_of (Option.map h o) ≡ core (h (shape_of o))
    inner none e = cc
    inner (some u) e = keeps u

find_unit-add_unit :
    (p : ℕ) (g : Graph) (n : ℕ)
    → find_unit (add_unit p g) n
      ≡ (if p == n then some (default_unit g.next_source) else find_unit g n)
unfolding add_unit
find_unit-add_unit p g n = lookup-insert p n (default_unit g.next_source) g.units

pub shape-touch : (p : ℕ) (g : Graph) (n : ℕ) → shape (touch p g) n ≡ shape g n
unfolding touch default_unit
shape-touch p g n = elim (Option-cases (find_unit g p)) [
  | inl e ↦ rw (e, touch) (ground (arith, find_unit-add_unit p g n, nat_beq_iff p n))
  | inr (u, e) ↦ rw (e, touch)
]

pub has_unit-touch :
    (p : ℕ) (g : Graph) (n : ℕ) → has_unit (touch p g) n ≡ (if p == n then true else has_unit g n)
unfolding touch default_unit has_unit
has_unit-touch p g n = elim (Option-cases (find_unit g p)) [
  | inl e ↦ rw (e, touch) (ground (arith, find_unit-add_unit p g n))
  | inr (u, e) ↦ rw (e, touch) (ground (arith, e, nat_beq_iff p n))
]

pub has_unit-edit :
    (p : ℕ) (h : CompileUnit → CompileUnit) (g : Graph) (n : ℕ)
    → has_unit (edit p h g) n ≡ has_unit g n
unfolding has_unit
has_unit-edit p h g n = ground (arith, find_unit-edit p h g n)

pub shape-edit_field {ℓ} :
    {A : Type ℓ} (f : CompileUnit → A) (p : ℕ) (h : CompileUnit → CompileUnit) (g : Graph) (n : ℕ)
    → ((u : CompileUnit) → f (core (h u)) ≡ f (core u))
    → f (shape (edit p h g) n) ≡ f (shape g n)
shape-edit_field f p h g n keeps =
    ap (λ o. f (shape_of o)) (find_unit-edit p h g n) ∙ inner (p == n) (find_unit g n)
  where
    inner :
        (b : Bool) (o : Option CompileUnit)
        → f (shape_of (if b then Option.map h o else o)) ≡ f (shape_of o)
    inner false o = refl
    inner true none = refl
    inner true (some u) = keeps u
