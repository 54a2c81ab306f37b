-- ===== src/CompileGraph/State.antt =====
-- src/server/compiler/compile_graph.h: `CompileUnit`, the data members of `CompileGraph`, its
-- queries, and `ensure_resolved`. A shared round is a number that `rounds` looks up; a cancellation
-- source is a number, cancelled once it stands in `cancelled`. What `resolve_fn` returns at a call is
-- an argument of that call. The pointer `units.find(id)->second` is followed by `edit`, which changes
-- nothing where the unit is missing.

pub mod View
pub mod Shape
use clice.Base.{
  ℕ, suc, Bool, true, false, not, ◌&&◌, ◌||◌, Option, none, some, List, [], ◌∷◌, ◌++◌, Table,
  lookup, insert, adjust, all_values, ◌==◌, nat_equality,
}

-- `CompileUnit::Outcome`; the constructor of `Outcome::Stale` and so on.
pub data Outcome : Type 0 where
  stale success failed : Outcome

pub record Round : Type 0 where
  pub completion : Bool
  pub outcome : Outcome

pub record CompileUnit : Type 0 where
  pub path_id : ℕ
  pub dependencies : List ℕ
  pub dependents : List ℕ
  pub resolved : Bool
  pub dirty : Bool
  pub compiling : Bool
  pub refcount : ℕ
  pub zero_check_pending : Bool
  pub generation : ℕ
  pub source : ℕ
  pub round : Option ℕ

pub record Graph : Type 0 where
  pub units : Table ℕ CompileUnit
  pub rounds : Table ℕ Round
  pub next_round : ℕ
  pub cancelled : List ℕ
  pub next_source : ℕ
  -- The `zero_interest_check` tasks that sleep, and whether `tasks.cancel()` was called.
  pub checks : List ℕ
  pub closing : Bool

unfoldable pub empty_graph : Graph
empty_graph = record {
  units = [];
  rounds = [];
  next_round = 0;
  cancelled = [];
  next_source = 0;
  checks = [];
  closing = false;
}

-- The member initialisers of `CompileUnit`, with a source of its own.
unfoldable pub default_unit : ℕ → CompileUnit
default_unit source = record {
  path_id = 0;
  dependencies = [];
  dependents = [];
  resolved = false;
  dirty = true;
  compiling = false;
  refcount = 0;
  zero_check_pending = false;
  generation = 0;
  source = source;
  round = none;
}

abbrev pub find_unit : Graph → ℕ → Option CompileUnit
find_unit g p = lookup p g.units

-- `units.find(p)->second` written through.
unfoldable pub edit : ℕ → (CompileUnit → CompileUnit) → Graph → Graph
edit p f g = record g { units = adjust p f g.units }

-- `units[p]` where it makes a new unit.
unfoldable pub add_unit : ℕ → Graph → Graph
unfolding default_unit
add_unit p g = record g {
  units = insert p (default_unit g.next_source) g.units;
  next_source = suc g.next_source;
}

-- `units[p]`.
unfoldable pub touch : ℕ → Graph → Graph
unfolding add_unit
touch p g = elim (find_unit g p) [ some u ↦ g | none ↦ add_unit p g ]

-- The test of a field by `units.find`, with the value for a missing unit.
abbrev pub read {ℓ} : {A : Type ℓ} → A → (CompileUnit → A) → Graph → ℕ → A
read d f g p = elim (find_unit g p) [ none ↦ d | some u ↦ f u ]

unfoldable pub has_unit : Graph → ℕ → Bool
has_unit = read false (λ u. true)

unfoldable pub is_dirty : Graph → ℕ → Bool
is_dirty = read false (λ u. u.dirty)

unfoldable pub is_compiling : Graph → ℕ → Bool
is_compiling = read false (λ u. u.compiling)

unfoldable pub refcount : Graph → ℕ → ℕ
refcount = read 0 (λ u. u.refcount)

unfoldable pub source_of : Graph → ℕ → ℕ
source_of = read 0 (λ u. u.source)

-- `round->completion.is_set()`.
unfoldable pub completed : Graph → ℕ → Bool
completed g r = elim (lookup r g.rounds) [ none ↦ false | some round ↦ round.completion ]

unfoldable pub round_done : Graph → Option ℕ → Bool
unfolding completed
round_done g none = true
round_done g (some r) = completed g r

unfoldable pub in_flight : Graph → Option ℕ → Bool
unfolding completed
in_flight g none = false
in_flight g (some r) = not (completed g r)

unfoldable pub idle : Graph → Bool
unfolding round_done
idle g = all_values (λ u. not u.compiling && (u.refcount == 0) && round_done g u.round) g.units

unfoldable pub consistent : Graph → Bool
unfolding in_flight
consistent g = all_values (λ u. not u.compiling || in_flight g u.round) g.units

-- `dep.path_id = dep_id; dep.dependents.push_back(path_id)`, for each dependency.
unfoldable pub add_dependents : ℕ → List ℕ → Graph → Graph
unfolding edit touch
add_dependents p [] g = g
add_dependents p (d ∷ ds) g =
    add_dependents p ds
      (edit d (λ u. record u { path_id = d; dependents = u.dependents ++ (p ∷ []) }) (touch d g))

-- The part of `ensure_resolved` behind its early return.
unfoldable pub resolve_unit : ℕ → List ℕ → Graph → Graph
unfolding edit add_dependents
resolve_unit p ds g =
    add_dependents p ds
      (edit p (λ u. record u { path_id = p; resolved = true; dependencies = ds }) g)

unfoldable pub is_resolved : Graph → ℕ → Bool
is_resolved = read false (λ u. u.resolved)

unfoldable pub ensure_resolved : ℕ → List ℕ → Graph → Graph
unfolding touch resolve_unit is_resolved
ensure_resolved p ds g = elim (is_resolved (touch p g) p) [
  | true ↦ touch p g
  | false ↦ resolve_unit p ds (touch p g)
]
