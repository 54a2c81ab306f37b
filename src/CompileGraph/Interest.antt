-- ===== src/CompileGraph/Interest.antt =====
-- src/server/compiler/compile_graph.cpp: interest in a unit (`acquire`, `release`, `RefGuard`), the
-- deferred check that cancels a round nobody waits for, and `cancel_round`.
pub mod Keeps
pub mod Resolve
pub mod Counts
use clice.Base.{
  u32, ℕ, suc, ◌+◌, ◌-◌, ◌%◌, Bool, true, false, not, ◌&&◌, none, some, List, [], ◌∷◌, ◌++◌, Table,
  ◌==◌, nat_equality, if◌then◌else◌,
}
use clice.CompileGraph.State.{CompileUnit, Graph, find_unit, edit, touch}

unfoldable pub acquire : ℕ → Graph → Graph
unfolding edit touch
acquire p g = edit p (λ u. record u { path_id = p; refcount = (u.refcount + 1) % u32 }) (touch p g)

-- `zero_check_pending = true` and the spawn of the check, which a group that shuts down refuses.
unfoldable pub schedule_check : ℕ → Graph → Graph
unfolding edit
schedule_check p g =
    if g.closing
    then edit p (λ u. record u { zero_check_pending = false })
        (edit p (λ u. record u { zero_check_pending = true }) g)
    else record (edit p (λ u. record u { zero_check_pending = true }) g) {
      checks = g.checks ++ (p ∷ []);
    }

unfoldable pub wants_check : CompileUnit → Bool
wants_check u = (u.refcount == 0) && u.compiling && not u.zero_check_pending

unfoldable pub release : ℕ → Graph → Graph
unfolding edit schedule_check wants_check
release p g =
    let g' = edit p (λ u. record u { refcount = (u.refcount + u32 - 1) % u32 }) g in
    elim (find_unit g' p) [ none ↦ g' | some u ↦ if wants_check u then schedule_check p g' else g' ]

-- Cancels the source of the unit and installs a fresh one.
unfoldable pub cancel_round : ℕ → Graph → Graph
unfolding edit
cancel_round p g = elim (find_unit g p) [
  | none ↦ g
  | some u ↦ record (edit p (λ u. record u { source = g.next_source }) g) {
    cancelled = u.source ∷ g.cancelled;
    next_source = suc g.next_source;
  }
]

-- What `zero_interest_check` does when its sleep is over.
unfoldable pub zero_interest_check : ℕ → Graph → Graph
unfolding edit cancel_round
zero_interest_check p g =
    let g' = edit p (λ u. record u { zero_check_pending = false }) g in
    elim (find_unit g' p) [
      | none ↦ g'
      | some u ↦ if (u.refcount == 0) && u.compiling then cancel_round p g' else g'
    ]

-- The constructor and the destructor of `RefGuard`.
unfoldable pub acquire_all : List ℕ → Graph → Graph
unfolding acquire
acquire_all [] g = g
acquire_all (d ∷ ds) g = acquire_all ds (acquire d g)

unfoldable pub release_all : List ℕ → Graph → Graph
unfolding release
release_all [] g = g
release_all (d ∷ ds) g = release_all ds (release d g)

-- `cancel_all`, over the units in the order of the table.
unfoldable pub cancel_each : Table ℕ CompileUnit → Graph → Graph
unfolding cancel_round
cancel_each [] g = g
cancel_each ((p, u) ∷ units) g = cancel_each units (cancel_round p g)

unfoldable pub cancel_all : Graph → Graph
unfolding cancel_each
cancel_all g = cancel_each g.units g
