-- ===== src/CompileGraph/State/View.antt =====
-- A unit without the number of its cancellation source, and what a write does to it.
use mathlib.Core.Option
use clice.Base.{
  ℕ, ◌≡◌, refl, ◌∙◌, ap, Bool, true, false, Option, none, some, lookup-adjust, if◌then◌else◌, ◌==◌,
  nat_equality,
}
use clice.CompileGraph.State.{CompileUnit, Graph, find_unit, edit}

abbrev pub strip : CompileUnit → CompileUnit
strip u = record u { source = 0 }

abbrev pub view : Graph → ℕ → Option CompileUnit
view g n = Option.map strip (find_unit g n)

pub find_unit-edit :
    (p : ℕ) (h : CompileUnit → CompileUnit) (g : Graph) (n : ℕ)
    → find_unit (edit p h g) n ≡ (if p == n then Option.map h (find_unit g n) else find_unit g n)
unfolding edit
find_unit-edit p h g n = lookup-adjust p n h g.units

pub view-edit :
    (p : ℕ) (h : CompileUnit → CompileUnit) (g : Graph) (n : ℕ)
    → ((u : CompileUnit) → strip (h u) ≡ h (strip u))
    → view (edit p h g) n ≡ (if p == n then Option.map h (view g n) else view g n)
view-edit p h g n keeps =
    ap (Option.map strip) (find_unit-edit p h g n) ∙ inner (p == n) (find_unit g n)
  where
    inner :
        (b : Bool) (o : Option CompileUnit)
        → Option.map strip (if b then Option.map h o else o)
          ≡ (if b then Option.map h (Option.map strip o) else Option.map strip o)
    inner false o = refl
    inner true none = refl
    inner true (some u) = ap some (keeps u)

pub view-edit_same :
    (p : ℕ) (h : CompileUnit → CompileUnit) (g : Graph) (n : ℕ)
    → ((u : CompileUnit) → strip (h u) ≡ strip u)
    → view (edit p h g) n ≡ view g n
view-edit_same p h g n keeps =
    ap (Option.map strip) (find_unit-edit p h g n) ∙ inner (p == n) (find_unit g n)
  where
    inner :
        (b : Bool) (o : Option CompileUnit)
        → Option.map strip (if b then Option.map h o else o) ≡ Option.map strip o
    inner false o = refl
    inner true none = refl
    inner true (some u) = ap some (keeps u)
