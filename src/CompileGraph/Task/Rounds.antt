-- ===== src/CompileGraph/Task/Rounds.antt =====
-- Opening a round in `spawn_unit` and closing it in the destructor of `UnitGuard`
-- (src/server/compiler/compile_graph.cpp).
use native.Mathlib.Nat.{zero-add}
use clice.Base.{
  ◌⊎◌, ℕ, ◌+◌, ◌<◌, ◌≡◌, refl, sym, ◌∙◌, ap, subst, Bool, true, false, some, List, [], ◌∷◌, arith,
  if◌then◌else◌, ◌==◌, nat_equality, nat_beq_iff, Bool-cases, inl, inr, All, lookup-insert, eq_self,
}
use clice.CompileGraph.State.{stale, CompileUnit, Graph, has_unit, completed}
use clice.CompileGraph.State.Shape.{core, shape, shape-edit}
use clice.CompileGraph.Task.{UnitTask, open_round}
use clice.CompileGraph.Task.Flight.{Flight, has_round, running}

some_eq : {a b : ℕ} → some a ≡ some b → a ≡ b
some_eq h = cc

abbrev opened : ℕ → CompileUnit → CompileUnit
opened r u = record u { compiling = true; round = some r }

pub open_round-shape :
    (p : ℕ) (g : Graph) (n : ℕ)
    → has_unit g p ≡ true
    → shape (open_round p g) n
      ≡ (if p == n then core (opened g.next_round (shape g n)) else shape g n)
unfolding open_round
open_round-shape p g n present = shape-edit p (opened g.next_round) g n present (λ u. refl)

open_round-completed :
    (p : ℕ) (g : Graph) (r : ℕ)
    → completed (open_round p g) r ≡ (if g.next_round == r then false else completed g r)
unfolding open_round completed
open_round-completed p g r =
    ground (
      arith,
      lookup-insert g.next_round r (record { completion = false; outcome = stale }) g.rounds,
    )

pub open_round-has_round :
    (p : ℕ) (g : Graph) (r : ℕ)
    → has_round (open_round p g) r ≡ (if g.next_round == r then true else has_round g r)
unfolding open_round has_round
open_round-has_round p g r =
    ground (
      arith,
      lookup-insert g.next_round r (record { completion = false; outcome = stale }) g.rounds,
    )

-- No task runs for `p`, so the tasks are not concerned.
others :
    (g h : Graph) (p : ℕ) (ts : List UnitTask)
    → running p ts ≡ 0
    → ((n : ℕ) → (p == n) ≡ false → (shape h n).round ≡ (shape g n).round)
    → All (λ t. (shape g t.path_id).round ≡ some t.round) ts
    → All (λ t. (shape h t.path_id).round ≡ some t.round) ts
unfolding running
others g h p [] none_of same a = tt
others g h p (t ∷ ts) none_of same a = elim (Bool-cases (p == t.path_id)) [
  | inl e ↦ absurd (
      taken (t.path_id == p) ((nat_beq_iff t.path_id p).1 (sym ((nat_beq_iff p t.path_id).0 e)))
        none_of)
  | inr e ↦ (same t.path_id e ∙ a.0, others g h p ts (rest (t.path_id == p) none_of) same a.1)
]
  where
    taken : (b : Bool) → b ≡ true → (if b then 1 else 0) + running p ts ≡ 0 → ⊥
    taken b e h = ground arith

    rest : (b : Bool) → (if b then 1 else 0) + running p ts ≡ 0 → running p ts ≡ 0
    rest b h = omega arith

module _ {g : Graph} {ts : List UnitTask} (t : UnitTask) (present : has_unit g t.path_id ≡ true)
    (off : (shape g t.path_id).compiling ≡ false) (own : t.round ≡ g.next_round)
    (f : Flight g ts) where
  abbrev p : ℕ
  p = t.path_id

  free : running p ts ≡ 0
  free = f.single p ∙ rw off

  at : (n : ℕ) → (p == n) ≡ true → shape (open_round p g) n ≡ core (opened g.next_round (shape g n))
  at n e = open_round-shape p g n present ∙ rw e

  off_at : (n : ℕ) → (p == n) ≡ false → shape (open_round p g) n ≡ shape g n
  off_at n e = open_round-shape p g n present ∙ rw e

  -- The round of a unit after the call.
  round_cases :
      (n r : ℕ)
      → (shape (open_round p g) n).round ≡ some r
      → ((p == n) ≡ true) × (r ≡ g.next_round)
        ⊎ ((p == n) ≡ false) × ((shape g n).round ≡ some r) × (r < g.next_round)
  round_cases n r h = elim (Bool-cases (p == n)) [
    | inl e ↦ inl (e, some_eq (sym h ∙ ap (λ u. u.round) (at n e)))
    | inr e ↦ let h' = sym (ap (λ u. u.round) (off_at n e)) ∙ h in inr (e, h', f.fresh n r h')
  ]

  older : (r : ℕ) → r < g.next_round → (g.next_round == r) ≡ false
  older r lt = ground arith

  pub open_round-Flight : Flight (open_round p g) (t ∷ ts)
  unfolding running open_round
  open_round-Flight = record {
    single = λ n. elim (Bool-cases (p == n)) [
      | inl e ↦
          rw (at n e, e) (omega (arith, subst (λ x. running x ts ≡ 0) ((nat_beq_iff p n).0 e) free))
      | inr e ↦ rw (off_at n e, e, zero-add) (f.single n)
    ];
    owned = (
      ap (λ u. u.round) (at p (eq_self p)) ∙ ap some (sym own),
      others g (open_round p g) p ts free (λ n e. ap (λ u. u.round) (off_at n e)) f.owned,
    );
    stored = λ n r h. open_round-has_round p g r ∙ elim (round_cases n r h) [
      | inl (_, q) ↦ rw (q, eq_self g.next_round)
      | inr (_, h', lt) ↦ rw (older r lt) (f.stored n r h')
    ];
    finished = λ n r h. open_round-completed p g r ∙ elim (round_cases n r h) [
      | inl (e, q) ↦ rw (q, eq_self g.next_round, at n e)
      | inr (e, h', lt) ↦ rw (older r lt, off_at n e) (f.finished n r h')
    ];
    begun = λ n h. elim (Bool-cases (p == n)) [
      | inl e ↦ (g.next_round, ap (λ u. u.round) (at n e))
      | inr e ↦
          let (r, h') = f.begun n (sym (ap (λ u. u.compiling) (off_at n e)) ∙ h) in
          (r, ap (λ u. u.round) (off_at n e) ∙ h')
    ];
    fresh = λ n r h. elim (round_cases n r h) [
      | inl (_, q) ↦ omega arith
      | inr (_, _, lt) ↦ omega arith
    ];
    distinct = λ m n r h h'. elim (round_cases m r h) [
      | inl (e, q) ↦ elim (round_cases n r h') [
        | inl (e', _) ↦ sym ((nat_beq_iff p m).0 e) ∙ (nat_beq_iff p n).0 e'
        | inr (_, _, lt) ↦ absurd (omega arith)
      ]
      | inr (_, k, lt) ↦ elim (round_cases n r h') [
        | inl (_, q) ↦ absurd (omega arith)
        | inr (_, k', _) ↦ f.distinct m n r k k'
      ]
    ];
  }
