-- ===== src/CompileGraph/Update/Frame.antt =====
-- The fields of a unit that `CompileGraph::update` (src/server/compiler/compile_graph.cpp) leaves
-- alone.
use mathlib.Core.Option
use clice.Base.{
  ℕ, ◌≡◌, refl, sym, ◌∙◌, ap, Bool, true, false, Option, none, some, List, arith, contains,
  nat_equality,
}
use clice.CompileGraph.State.{CompileUnit, Graph, find_unit, read, has_unit, refcount}
use clice.CompileGraph.State.View.{strip, view}
use clice.CompileGraph.State.Shape.{shape}
use clice.CompileGraph.Update.{dependencies_of}
use clice.CompileGraph.Update.Progress.{settled}
use clice.CompileGraph.Update.Reaches.{Dirties}

module _ {A : Type 0} (d : A) (f : CompileUnit → A) where
  read-view :
      (g : Graph) (n : ℕ)
      → ((u : CompileUnit) → f (strip u) ≡ f u)
      → read d f g n ≡ elim (view g n) [ none ↦ d | some u ↦ f u ]
  read-view g n plain = inner (find_unit g n)
    where
      inner :
          (o : Option CompileUnit)
          → ◌≡◌ {A = A}
              (elim o [ none ↦ d | some u ↦ f u ])
              (elim (Option.map strip o) [ none ↦ d | some u ↦ f u ])
      inner none = refl
      inner (some u) = sym (plain u)

  pub Dirties-read :
      {g : Graph} {p : ℕ} {s : Graph × List ℕ}
      → Dirties g p s
      → ((u : CompileUnit) → f (strip u) ≡ f u)
      → ((n : ℕ) (hit : Bool) (u : CompileUnit)
          → f (settled p (dependencies_of g p) n true hit u) ≡ f u)
      → (n : ℕ) → read d f s.0 n ≡ read d f g n
  Dirties-read {g} {p} {s} r plain kept n =
      read-view s.0 n plain
      ∙ (ap value (r.units n) ∙ (inner (view g n) ∙ sym (read-view g n plain)))
    where
      value : Option CompileUnit → A
      value o = elim o [ none ↦ d | some u ↦ f u ]

      inner :
          (o : Option CompileUnit)
          → value (Option.map (settled p (dependencies_of g p) n true (contains s.1 n)) o) ≡ value o
      inner none = refl
      inner (some u) = kept n (contains s.1 n) u

module _ {g : Graph} {p : ℕ} {s : Graph × List ℕ} (r : Dirties g p s) where
  pub Dirties-has_unit : (n : ℕ) → has_unit s.0 n ≡ has_unit g n
  unfolding has_unit
  Dirties-has_unit = Dirties-read false (λ u. true) r (λ u. refl) (λ n hit u. refl)

  pub Dirties-refcount : (n : ℕ) → refcount s.0 n ≡ refcount g n
  unfolding refcount
  Dirties-refcount = Dirties-read 0 (λ u. u.refcount) r (λ u. refl) (λ n hit u. refl)

  compiling-shape : (h : Graph) (n : ℕ) → (shape h n).compiling ≡ read false (λ u. u.compiling) h n
  compiling-shape h n = ground arith

  round-shape : (h : Graph) (n : ℕ) → (shape h n).round ≡ read none (λ u. u.round) h n
  round-shape h n = ground arith

  pub Dirties-compiling : (n : ℕ) → (shape s.0 n).compiling ≡ (shape g n).compiling
  Dirties-compiling n =
      compiling-shape s.0 n
      ∙ (Dirties-read false (λ u. u.compiling) r (λ u. refl) (λ m hit u. refl) n
          ∙ sym (compiling-shape g n))

  pub Dirties-round : (n : ℕ) → (shape s.0 n).round ≡ (shape g n).round
  Dirties-round n =
      round-shape s.0 n
      ∙ (Dirties-read none (λ u. u.round) r (λ u. refl) (λ m hit u. refl) n ∙ sym (round-shape g n))
