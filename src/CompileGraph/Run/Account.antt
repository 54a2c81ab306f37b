-- ===== src/CompileGraph/Run/Account.antt =====
-- The invariant of the event loop over src/server/compiler/compile_graph.cpp, one operation at a time.
use clice.Base.{
  u32, ℕ, ◌+◌, ◌%◌, ◌≤◌, ◌≡◌, sym, ◌∙◌, ap, true, List, [], ◌∷◌, ◌++◌, arith, nat_equality,
  contains, count, NodupKeys,
}
use clice.CompileGraph.State.{Outcome, Graph, has_unit, refcount, ensure_resolved}
use clice.CompileGraph.Interest.{acquire_all, release_all}
use clice.CompileGraph.Interest.Keeps.{Quiet}
use clice.CompileGraph.Interest.Counts.{
  acquire_all-Keeps, release_all-Keeps, acquire_all-units, release_all-units, refcount-acquire_all,
  refcount-release_all,
}
use clice.CompileGraph.Interest.Resolve.{ensure_resolved-Resolves}
use clice.CompileGraph.Update.Reaches.{Dirties}
use clice.CompileGraph.Update.Frame.{
  Dirties-has_unit, Dirties-refcount, Dirties-compiling, Dirties-round,
}
use clice.CompileGraph.Task.{UnitTask, drop_guard}
use clice.CompileGraph.Task.Flight.{Flight, SameFlight-Flight, Keeps-SameFlight}
use clice.CompileGraph.Task.Close.{Drops-Closes, close-Flight, task-Drops}

-- The graph accounts for the tasks and for the interest that they and the requests hold.
pub record Account (g : Graph) (ts : List UnitTask) (held : ℕ → ℕ) : Type 0 where
  pub flight : Flight g ts
  pub counted : (n : ℕ) → refcount g n ≡ held n % u32
  pub present : (n : ℕ) → 1 ≤ held n → has_unit g n ≡ true
  pub nodup : NodupKeys g.units

count_pos : (n : ℕ) (ids : List ℕ) → contains ids n ≡ true → 1 ≤ count n ids
unfolding contains count
count_pos n [] h = ground arith
count_pos n (x ∷ ids) h = ground (arith, count_pos n ids)

contains_pos : (n : ℕ) (ids : List ℕ) → 1 ≤ count n ids → contains ids n ≡ true
unfolding contains count
contains_pos n [] h = absurd (omega arith)
contains_pos n (x ∷ ids) h = ground (arith, contains_pos n ids)

module _ {g : Graph} {ts : List UnitTask} {held : ℕ → ℕ} (a : Account g ts held) where
  pub Quiet-Account : {h : Graph} → Quiet g h → Account h ts held
  Quiet-Account q = record {
    flight = SameFlight-Flight (Keeps-SameFlight q.keeps) a.flight;
    counted = λ n. q.counts n ∙ a.counted n;
    present = λ n h. q.units n ∙ a.present n h;
    nodup = q.keeps.nodup a.nodup;
  }

  pub acquire_all-Account :
      (ids : List ℕ) (held' : ℕ → ℕ)
      → ((n : ℕ) → held' n ≡ held n + count n ids)
      → Account (acquire_all ids g) ts held'
  acquire_all-Account ids held' e = record {
    flight = SameFlight-Flight (Keeps-SameFlight (acquire_all-Keeps ids g)) a.flight;
    counted = λ n.
        refcount-acquire_all ids g n (held n) (a.counted n) ∙ ap (λ (x : ℕ). x % u32) (sym (e n));
    present =
        λ n h. acquire_all-units ids g n ∙ ground (arith, e n, contains_pos n ids, a.present n);
    nodup = (acquire_all-Keeps ids g).nodup a.nodup;
  }

  pub release_all-Account :
      (ids : List ℕ) (held' : ℕ → ℕ)
      → ((n : ℕ) → held n ≡ held' n + count n ids)
      → Account (release_all ids g) ts held'
  release_all-Account ids held' e = record {
    flight = SameFlight-Flight (Keeps-SameFlight (release_all-Keeps ids g)) a.flight;
    counted = λ n.
        refcount-release_all ids g n (held' n)
          (λ d h. a.present d (omega (arith, e d, count_pos d ids h)))
          (a.counted n ∙ ap (λ (x : ℕ). x % u32) (e n));
    present = λ n h. release_all-units ids g n ∙ a.present n (omega (arith, e n));
    nodup = (release_all-Keeps ids g).nodup a.nodup;
  }

  pub ensure_resolved-Account : (p : ℕ) (ds : List ℕ) → Account (ensure_resolved p ds g) ts held
  ensure_resolved-Account p ds =
      let r = ensure_resolved-Resolves p ds g in
      record {
        flight =
            SameFlight-Flight
              (record {
                compiling = r.compiling;
                round = r.round;
                rounds = r.rounds;
                next_round = r.next_round;
              })
              a.flight;
        counted = λ n. r.counts n ∙ a.counted n;
        present = λ n h. r.units n (a.present n h);
        nodup = r.nodup a.nodup;
      }

  pub update-Account : {p : ℕ} {s : Graph × List ℕ} → Dirties g p s → Account s.0 ts held
  update-Account d = record {
    flight =
        SameFlight-Flight
          (record {
            compiling = Dirties-compiling d;
            round = Dirties-round d;
            rounds = d.rounds;
            next_round = d.next_round;
          })
          a.flight;
    counted = λ n. Dirties-refcount d n ∙ a.counted n;
    present = λ n h. Dirties-has_unit d n ∙ a.present n h;
    nodup = d.nodup a.nodup;
  }

-- A task ends, and gives back what it acquired.
pub drop_guard-Account :
    {g : Graph} {held : ℕ → ℕ} (before after : List UnitTask) (t : UnitTask) (o : Outcome)
    (held' : ℕ → ℕ)
    → Account g (before ++ (t ∷ after)) held
    → ((n : ℕ) → held n ≡ held' n + count n t.acquired)
    → Account (drop_guard t o g) (before ++ after) held'
drop_guard-Account {g} before after t o held' a e =
    let d = task-Drops before after t a.flight o in
    record {
      flight = close-Flight before after t a.flight (Drops-Closes d);
      counted = λ n.
          d.counts n (held' n) (λ m h. a.present m (omega (arith, e m, count_pos m t.acquired h)))
            (a.counted n ∙ ap (λ (x : ℕ). x % u32) (e n));
      present = λ n h. d.units n ∙ a.present n (omega (arith, e n));
      nodup = d.nodup a.nodup;
    }
