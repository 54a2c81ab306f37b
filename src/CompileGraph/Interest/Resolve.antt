-- ===== src/CompileGraph/Interest/Resolve.antt =====
-- What `ensure_resolved` (src/server/compiler/compile_graph.cpp) does to every unit.

use clice.Base.{
  ℕ, ◌≡◌, refl, sym, ◌∙◌, ap, Bool, true, false, not, Option, none, some, List, [], ◌∷◌, ◌++◌,
  arith, NodupKeys, if◌then◌else◌, ◌==◌, nat_equality, nat_beq_iff, Bool-cases, inl, inr, contains,
  contains-append, ◌||◌, ◌&&◌, eq_self, adjust-NodupKeys,
}
use clice.CompileGraph.State.{
  CompileUnit, Graph, find_unit, edit, touch, has_unit, refcount, add_dependents, resolve_unit,
  ensure_resolved, is_resolved,
}
use clice.CompileGraph.State.Shape.{
  core, shape, shape_of, shape-edit, shape-touch, has_unit-touch, has_unit-edit,
}
use clice.CompileGraph.Interest.Keeps.{Keeps, touch-Keeps, refcount-touch, refcount-edit}

-- The shape without the back-edges.
abbrev pub unlinked : CompileUnit → CompileUnit
unlinked u = record u { dependents = [] }

-- `h` is `g` with back-edges from the units in `ds` to `p`.
record Links (p : ℕ) (ds : List ℕ) (g h : Graph) : Type 0 where
  shapes : (n : ℕ) → unlinked (shape h n) ≡ unlinked (shape g n)
  links :
      (n m : ℕ)
      → contains (shape h n).dependents m
        ≡ (contains (shape g n).dependents m || (contains ds n && p == m))
  units : (n : ℕ) → has_unit h n ≡ (contains ds n || has_unit g n)
  counts : (n : ℕ) → refcount h n ≡ refcount g n
  rounds : h.rounds ≡ g.rounds
  next_round : h.next_round ≡ g.next_round
  closing : h.closing ≡ g.closing
  nodup : NodupKeys g.units → NodupKeys h.units

abbrev linked : ℕ → ℕ → CompileUnit → CompileUnit
linked p d u = record u { path_id = d; dependents = u.dependents ++ (p ∷ []) }

link-shape :
    (p d : ℕ) (g : Graph) (n : ℕ)
    → shape (edit d (linked p d) (touch d g)) n
      ≡ (if d == n then core (linked p d (shape g n)) else shape g n)
link-shape p d g n =
    shape-edit d (linked p d) (touch d g) n (has_unit-touch d g d ∙ rw (eq_self d)) (λ u. refl)
    ∙ rw (shape-touch d g n)

link-unlinked :
    (p d : ℕ) (b : Bool) (o : Option CompileUnit)
    → unlinked (if b then core (linked p d (shape_of o)) else shape_of o) ≡ unlinked (shape_of o)
link-unlinked p d false o = refl
link-unlinked p d true none = refl
link-unlinked p d true (some u) = refl

link-contains :
    (p d m : ℕ) (c b : Bool) (u : CompileUnit)
    → (let v : CompileUnit = if b then core (linked p d u) else u in
        contains v.dependents m || (c && p == m))
      ≡ (contains u.dependents m || ((b || c) && p == m))
unfolding contains
link-contains p d m c false u = refl
link-contains p d m c true u = ground (arith, contains-append u.dependents (p ∷ []) m)

add_dependents-Links : (p : ℕ) (ds : List ℕ) (g : Graph) → Links p ds g (add_dependents p ds g)
unfolding add_dependents contains edit
add_dependents-Links p [] g = record {
  shapes = λ n. refl;
  links = λ n m. ground arith;
  units = λ n. refl;
  counts = λ n. refl;
  rounds = refl;
  next_round = refl;
  closing = refl;
  nodup = λ h. h;
}
add_dependents-Links p (d ∷ ds) g =
    let next = edit d (linked p d) (touch d g) in
    let rest = add_dependents-Links p ds next in
    let first = touch-Keeps d g in
    record {
      shapes = λ n.
          rest.shapes n
          ∙ (ap unlinked (link-shape p d g n) ∙ link-unlinked p d (d == n) (find_unit g n));
      links = λ n m.
          rest.links n m
          ∙ (ap (λ (u : CompileUnit). contains u.dependents m || (contains ds n && p == m))
                (link-shape p d g n)
              ∙ link-contains p d m (contains ds n) (d == n) (shape g n));
      units = λ n.
          rest.units n
          ∙ ground (arith, has_unit-edit d (linked p d) (touch d g) n, has_unit-touch d g n);
      counts = λ n.
          rest.counts n
          ∙ (refcount-edit d (linked p d) (touch d g) n (λ u. refl) ∙ refcount-touch d g n);
      rounds = rest.rounds ∙ first.rounds;
      next_round = rest.next_round ∙ first.next_round;
      closing = rest.closing ∙ first.closing;
      nodup = λ h. rest.nodup (adjust-NodupKeys d (linked p d) (touch d g).units (first.nodup h));
    }

-- `h` is `g` after `ensure_resolved p`, where `resolve_fn` returns `ds`.
pub record Resolves (p : ℕ) (ds : List ℕ) (g h : Graph) : Type 0 where
  pub compiling : (n : ℕ) → (shape h n).compiling ≡ (shape g n).compiling
  pub round : (n : ℕ) → (shape h n).round ≡ (shape g n).round
  pub dirty : (n : ℕ) → (shape h n).dirty ≡ (shape g n).dirty
  pub generation : (n : ℕ) → (shape h n).generation ≡ (shape g n).generation
  pub resolved : (n : ℕ) → (shape h n).resolved ≡ (if p == n then true else (shape g n).resolved)
  pub dependencies :
      (n : ℕ)
      → (shape h n).dependencies
        ≡ (if p == n && not (shape g p).resolved then ds else (shape g n).dependencies)
  pub dependents :
      (n m : ℕ)
      → contains (shape h n).dependents m ≡ (
          contains (shape g n).dependents m
          || (not (shape g p).resolved && (contains ds n && p == m)))
  pub units : (n : ℕ) → has_unit g n ≡ true → has_unit h n ≡ true
  pub found : has_unit h p ≡ true
  pub counts : (n : ℕ) → refcount h n ≡ refcount g n
  pub rounds : h.rounds ≡ g.rounds
  pub next_round : h.next_round ≡ g.next_round
  pub closing : h.closing ≡ g.closing
  pub nodup : NodupKeys g.units → NodupKeys h.units

at_self : (p n : ℕ) (f : ℕ → Bool) → f p ≡ true → f n ≡ (if p == n then true else f n)
at_self p n f h = elim (Bool-cases (p == n)) [
  | inl same ↦ rw (same, ← (nat_beq_iff p n).0 same) h
  | inr other ↦ rw other
]

-- The early return of a unit that is resolved.
touch-Resolves :
    (p : ℕ) (ds : List ℕ) (g : Graph) → (shape g p).resolved ≡ true → Resolves p ds g (touch p g)
touch-Resolves p ds g done =
    let keeps = touch-Keeps p g in
    record {
      compiling = λ n. ap (λ u. u.compiling) (shape-touch p g n);
      round = λ n. ap (λ u. u.round) (shape-touch p g n);
      dirty = λ n. ap (λ u. u.dirty) (shape-touch p g n);
      generation = λ n. ap (λ u. u.generation) (shape-touch p g n);
      resolved = λ n.
          ap (λ u. u.resolved) (shape-touch p g n) ∙ at_self p n (λ m. (shape g m).resolved) done;
      dependencies = λ n. ap (λ u. u.dependencies) (shape-touch p g n) ∙ rw done (ground arith);
      dependents =
          λ n m. ap (λ u. contains u.dependents m) (shape-touch p g n) ∙ rw done (ground arith);
      units = λ n h. has_unit-touch p g n ∙ ground arith;
      found = has_unit-touch p g p ∙ rw (eq_self p);
      counts = refcount-touch p g;
      rounds = keeps.rounds;
      next_round = keeps.next_round;
      closing = keeps.closing;
      nodup = keeps.nodup;
    }

abbrev settle : ℕ → List ℕ → CompileUnit → CompileUnit
settle p ds u = record u { path_id = p; resolved = true; dependencies = ds }

resolve_unit-Resolves :
    (p : ℕ) (ds : List ℕ) (g : Graph)
    → (shape g p).resolved ≡ false
    → Resolves p ds g (resolve_unit p ds (touch p g))
unfolding resolve_unit edit
resolve_unit-Resolves p ds g fresh = record {
  compiling = λ n. ap (λ u. u.compiling) (links.shapes n ∙ mid n) ∙ ground arith;
  round = λ n. ap (λ u. u.round) (links.shapes n ∙ mid n) ∙ ground arith;
  dirty = λ n. ap (λ u. u.dirty) (links.shapes n ∙ mid n) ∙ ground arith;
  generation = λ n. ap (λ u. u.generation) (links.shapes n ∙ mid n) ∙ ground arith;
  resolved = λ n. ap (λ u. u.resolved) (links.shapes n ∙ mid n) ∙ ground arith;
  dependencies = λ n. ap (λ u. u.dependencies) (links.shapes n ∙ mid n) ∙ rw fresh (ground arith);
  dependents = λ n m.
      links.links n m
      ∙ (ap (λ (u : CompileUnit). contains u.dependents m || (contains ds n && p == m)) (first n)
          ∙ rw fresh (ground arith));
  units = λ n h.
      links.units n
      ∙ ground (arith, has_unit-edit p (settle p ds) (touch p g) n, has_unit-touch p g n);
  found =
      links.units p
      ∙ rw (has_unit-edit p (settle p ds) (touch p g) p, has_unit-touch p g p, eq_self p)
          (ground arith);
  counts = λ n.
      links.counts n
      ∙ (refcount-edit p (settle p ds) (touch p g) n (λ u. refl) ∙ refcount-touch p g n);
  rounds = links.rounds ∙ keeps.rounds;
  next_round = links.next_round ∙ keeps.next_round;
  closing = links.closing ∙ keeps.closing;
  nodup = λ h. links.nodup (adjust-NodupKeys p (settle p ds) (touch p g).units (keeps.nodup h));
}
  where
    keeps : Keeps g (touch p g)
    keeps = touch-Keeps p g

    links :
        Links p ds
          (edit p (settle p ds) (touch p g))
          (add_dependents p ds (edit p (settle p ds) (touch p g)))
    links = add_dependents-Links p ds (edit p (settle p ds) (touch p g))

    first :
        (n : ℕ)
        → shape (edit p (settle p ds) (touch p g)) n
          ≡ (if p == n then core (settle p ds (shape g n)) else shape g n)
    first n =
        shape-edit p (settle p ds) (touch p g) n (has_unit-touch p g p ∙ rw (eq_self p)) (λ u. refl)
        ∙ rw (shape-touch p g n)

    mid :
        (n : ℕ)
        → unlinked (shape (edit p (settle p ds) (touch p g)) n)
          ≡ unlinked (if p == n then core (settle p ds (shape g n)) else shape g n)
    mid n = ap unlinked (first n)

resolved-shape : (g : Graph) (p : ℕ) → is_resolved g p ≡ (shape g p).resolved
unfolding is_resolved
resolved-shape g p = ground arith

-- `ensure_resolved` keeps the edges of a unit that is resolved, and records the dependencies and the
-- back-edges of a unit that is not; the compilations, the rounds, the dirty flags, the generations
-- and the interest counts stay as they were.
pub ensure_resolved-Resolves :
    (p : ℕ) (ds : List ℕ) (g : Graph) → Resolves p ds g (ensure_resolved p ds g)
unfolding ensure_resolved
ensure_resolved-Resolves p ds g = elim (Bool-cases (is_resolved (touch p g) p)) [
  | inl done ↦ rw (done, ensure_resolved) (touch-Resolves p ds g (sym state ∙ done))
  | inr fresh ↦ rw (fresh, ensure_resolved) (resolve_unit-Resolves p ds g (sym state ∙ fresh))
]
  where
    state : is_resolved (touch p g) p ≡ (shape g p).resolved
    state = resolved-shape (touch p g) p ∙ rw (shape-touch p g p)
