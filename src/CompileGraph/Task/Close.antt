-- ===== src/CompileGraph/Task/Close.antt =====
-- A task that ends keeps the account of the rounds in flight (src/server/compiler/compile_graph.cpp).
use mathlib.Core.Bool.{false≢true}
use clice.Base.{
  ℕ, ◌+◌, ◌≤◌, ◌≡◌, refl, sym, ◌∙◌, ap, subst, Bool, true, false, not, some, List, ◌∷◌, ◌++◌, arith,
  if◌then◌else◌, ◌==◌, nat_equality, nat_beq_iff, Bool-cases, inl, inr, eq_self, ◌||◌,
}
use clice.CompileGraph.State.{Outcome, CompileUnit, Graph, has_unit, completed}
use clice.CompileGraph.State.Shape.{core, shape}
use clice.CompileGraph.Task.{UnitTask, drop_guard}
use clice.CompileGraph.Task.Flight.{
  Flight, has_round, running, running-append, joined_All, left_All, right_All, All-map,
}
use clice.CompileGraph.Task.Guard.{Drops, drop_guard-Drops, closed_unit}

some_eq : {a b : ℕ} → some a ≡ some b → a ≡ b
some_eq h = cc

pub compiling-has_unit : (g : Graph) (p : ℕ) → (shape g p).compiling ≡ true → has_unit g p ≡ true
unfolding has_unit
compiling-has_unit g p h = ground arith

running_pos :
    (before after : List UnitTask) (t : UnitTask) → 1 ≤ running t.path_id (before ++ (t ∷ after))
unfolding running
running_pos before after t = omega (
  arith,
  running-append t.path_id before (t ∷ after),
  here (t.path_id == t.path_id) (eq_self t.path_id),
)
  where
    here : (b : Bool) → b ≡ true → ◌≡◌ {A = ℕ} (if b then 1 else 0) 1
    here b h = rw h

flag_on : (b : Bool) → 1 ≤ (if b then 1 else 0) → b ≡ true
flag_on true h = refl
flag_on false h = absurd (omega arith)

-- `h` is `g` with the round of `t` completed and its unit no longer compiling.
pub record Closes (t : UnitTask) (g h : Graph) : Type 0 where
  pub shapes :
      (n : ℕ) → shape h n ≡ (if t.path_id == n then core (closed_unit (shape g n)) else shape g n)
  pub completed_after : (r : ℕ) → completed h r ≡ (t.round == r || completed g r)
  pub has_rounds : (r : ℕ) → has_round h r ≡ has_round g r
  pub next_round : h.next_round ≡ g.next_round

pub Drops-Closes : {t : UnitTask} {o : Outcome} {g h : Graph} → Drops t o g h → Closes t g h
Drops-Closes d = record {
  shapes = d.shapes;
  completed_after = d.completed_after;
  has_rounds = d.has_rounds;
  next_round = d.next_round;
}

module _ {g : Graph} (before after : List UnitTask) (t : UnitTask)
    (f : Flight g (before ++ (t ∷ after))) where
  pub task-round : (shape g t.path_id).round ≡ some t.round
  task-round = (right_All _ before (t ∷ after) f.owned).0

  pub task-compiling : (shape g t.path_id).compiling ≡ true
  task-compiling =
      flag_on (shape g t.path_id).compiling (rw (← f.single t.path_id) (running_pos before after t))

  pub task-Drops : (o : Outcome) → Drops t o g (drop_guard t o g)
  task-Drops o =
      drop_guard-Drops t o g (compiling-has_unit g t.path_id task-compiling)
        (f.stored t.path_id t.round task-round)

module _ {g h : Graph} (before after : List UnitTask) (t : UnitTask)
    (f : Flight g (before ++ (t ∷ after))) (d : Closes t g h) where
  abbrev p : ℕ
  p = t.path_id

  round-same : (n : ℕ) → (shape h n).round ≡ (shape g n).round
  round-same n = ap (λ u. u.round) (d.shapes n) ∙ inner (p == n) (shape g n)
    where
      inner : (b : Bool) (u : CompileUnit) → (if b then core (closed_unit u) else u).round ≡ u.round
      inner true u = refl
      inner false u = refl

  compiling-after :
      (n : ℕ) → (shape h n).compiling ≡ (if p == n then false else (shape g n).compiling)
  compiling-after n = ap (λ u. u.compiling) (d.shapes n) ∙ inner (p == n) (shape g n)
    where
      inner :
          (b : Bool) (u : CompileUnit)
          → (if b then core (closed_unit u) else u).compiling ≡ (if b then false else u.compiling)
      inner true u = refl
      inner false u = refl

  running-rest :
      (n : ℕ)
      → running n (before ++ (t ∷ after)) ≡ (if p == n then 1 else 0) + running n (before ++ after)
  unfolding running
  running-rest n = omega (arith, running-append n before (t ∷ after), running-append n before after)

  pub close-Flight : Flight h (before ++ after)
  close-Flight = record {
    single = λ n. rw (compiling-after n) (left n (p == n) refl);
    owned =
        All-map (before ++ after) (λ s e. round-same s.path_id ∙ e)
          (joined_All _ before after (left_All _ before (t ∷ after) f.owned)
            (right_All _ before (t ∷ after) f.owned).1);
    stored = λ n r e. d.has_rounds r ∙ f.stored n r (sym (round-same n) ∙ e);
    finished = λ n r e.
        d.completed_after r
        ∙ (done n r (sym (round-same n) ∙ e) (p == n) refl ∙ ap not (sym (compiling-after n)));
    begun = λ n e'.
        let (r, e) =
          f.begun n (still (p == n) (shape g n).compiling (sym (compiling-after n) ∙ e')) in
        (r, round-same n ∙ e);
    fresh = λ n r e. rw d.next_round (f.fresh n r (sym (round-same n) ∙ e));
    distinct = λ m n r e e'. f.distinct m n r (sym (round-same m) ∙ e) (sym (round-same n) ∙ e');
  }
    where
      still : (b c : Bool) → (if b then false else c) ≡ true → c ≡ true
      still b c h = ground arith

      left :
          (n : ℕ) (b : Bool)
          → (p == n) ≡ b
          → running n (before ++ after)
            ≡ (if (if b then false else (shape g n).compiling) then 1 else 0)
      left n true e = ground (arith, e, f.single n, running-rest n)
      left n false e = ground (arith, e, f.single n, running-rest n)

      task_is : (n r : ℕ) → (shape g n).round ≡ some r → (p == n) ≡ true → (t.round == r) ≡ true
      task_is n r h e = (nat_beq_iff t.round r).1 (
          some_eq (
            sym (task-round before after t f)
            ∙ subst (λ x. (shape g x).round ≡ some r) (sym ((nat_beq_iff p n).0 e)) h))

      done :
          (n r : ℕ)
          → (shape g n).round ≡ some r
          → (b : Bool) → (p == n) ≡ b
          → (t.round == r || completed g r) ≡ not (if p == n then false else (shape g n).compiling)
      done n r h true e = rw (e, task_is n r h e)
      done n r h false e = elim (Bool-cases (t.round == r)) [
        | inl same ↦ absurd (
            false≢true (
              sym e
              ∙ (nat_beq_iff p n).1 (
                  f.distinct p n r
                    (task-round before after t f ∙ ap some ((nat_beq_iff t.round r).0 same)) h)))
        | inr other ↦ rw (other, e) (f.finished n r h)
      ]
