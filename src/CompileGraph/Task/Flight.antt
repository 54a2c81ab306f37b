-- ===== src/CompileGraph/Task/Flight.antt =====
-- The rounds in flight (src/server/compiler/compile_graph.cpp): which unit compiles, by which task,
-- for which round.

use clice.Base.{
  ℕ, ◌+◌, ◌<◌, ◌≡◌, sym, ◌∙◌, ap, Bool, true, false, not, none, some, List, [], ◌∷◌, ◌++◌, arith,
  if◌then◌else◌, ◌==◌, nat_equality, All, lookup,
}
use clice.CompileGraph.State.{Graph, completed}
use clice.CompileGraph.State.Shape.{shape}
use clice.CompileGraph.Interest.Keeps.{Keeps}
use clice.CompileGraph.Task.{UnitTask}

-- How many tasks run for a unit.
unfoldable pub running : ℕ → List UnitTask → ℕ
running n [] = 0
running n (t ∷ ts) = (if t.path_id == n then 1 else 0) + running n ts

pub running-append :
    (n : ℕ) (ts us : List UnitTask) → running n (ts ++ us) ≡ running n ts + running n us
unfolding running
running-append n [] us = omega arith
running-append n (t ∷ ts) us = omega (arith, running-append n ts us)

pub joined_All {κ ℓ} :
    {T : Type ℓ} (P : T → Type κ) (before after : List T)
    → All P before
    → All P after
    → All P (before ++ after)
joined_All P [] after none_left rest = rest
joined_All P (t ∷ before) after (first, more) rest = (first, joined_All P before after more rest)

pub left_All {ℓ κ} : {A : Type ℓ} (P : A → Type κ) (xs ys : List A) → All P (xs ++ ys) → All P xs
left_All P [] ys h = tt
left_All P (x ∷ xs) ys h = (h.0, left_All P xs ys h.1)

pub right_All {ℓ κ} : {A : Type ℓ} (P : A → Type κ) (xs ys : List A) → All P (xs ++ ys) → All P ys
right_All P [] ys h = h
right_All P (x ∷ xs) ys h = right_All P xs ys h.1

unfoldable pub has_round : Graph → ℕ → Bool
has_round g r = elim (lookup r g.rounds) [ none ↦ false | some round ↦ true ]

pub record Flight (g : Graph) (ts : List UnitTask) : Type 0 where
  -- A unit that compiles has one task, any other has none.
  pub single : (n : ℕ) → running n ts ≡ (if (shape g n).compiling then 1 else 0)
  pub owned : All (λ t. (shape g t.path_id).round ≡ some t.round) ts
  pub stored : (n r : ℕ) → (shape g n).round ≡ some r → has_round g r ≡ true
  -- A round is completed when its unit does not compile.
  pub finished : (n r : ℕ) → (shape g n).round ≡ some r → completed g r ≡ not (shape g n).compiling
  pub begun : (n : ℕ) → (shape g n).compiling ≡ true → (r : ℕ) × ((shape g n).round ≡ some r)
  pub fresh : (n r : ℕ) → (shape g n).round ≡ some r → r < g.next_round
  pub distinct : (m n r : ℕ) → (shape g m).round ≡ some r → (shape g n).round ≡ some r → m ≡ n

-- What the rounds in flight depend on.
pub record SameFlight (g h : Graph) : Type 0 where
  pub compiling : (n : ℕ) → (shape h n).compiling ≡ (shape g n).compiling
  pub round : (n : ℕ) → (shape h n).round ≡ (shape g n).round
  pub rounds : h.rounds ≡ g.rounds
  pub next_round : h.next_round ≡ g.next_round

pub Keeps-SameFlight : {g h : Graph} → Keeps g h → SameFlight g h
Keeps-SameFlight k = record {
  compiling = λ n. ap (λ u. u.compiling) (k.shapes n);
  round = λ n. ap (λ u. u.round) (k.shapes n);
  rounds = k.rounds;
  next_round = k.next_round;
}

pub All-map {ℓ κ} :
    {A : Type ℓ} {P Q : A → Type κ} (xs : List A) → ((a : A) → P a → Q a) → All P xs → All Q xs
All-map [] f h = tt
All-map (x ∷ xs) f h = (f x h.0, All-map xs f h.1)

pub SameFlight-Flight :
    {g h : Graph} {ts : List UnitTask} → SameFlight g h → Flight g ts → Flight h ts
unfolding completed has_round
SameFlight-Flight {g} {h} {ts} s f = record {
  single = λ n. f.single n ∙ rw (s.compiling n);
  owned = All-map ts (λ t e. s.round t.path_id ∙ e) f.owned;
  stored = λ n r e. rw s.rounds (f.stored n r (sym (s.round n) ∙ e));
  finished = λ n r e. rw (s.rounds, s.compiling n) (f.finished n r (sym (s.round n) ∙ e));
  begun = λ n e. let (r, e') = f.begun n (sym (s.compiling n) ∙ e) in (r, s.round n ∙ e');
  fresh = λ n r e. rw s.next_round (f.fresh n r (sym (s.round n) ∙ e));
  distinct = λ m n r e e'. f.distinct m n r (sym (s.round m) ∙ e) (sym (s.round n) ∙ e');
}
