-- ===== src/CompileGraph/Interest/Keeps.antt =====
-- What the operations of src/server/compiler/compile_graph.cpp on interest and cancellation leave
-- alone, and what they do to the interest counts.
use mathlib.Core.Option
use clice.Base.{
  u32, ℕ, ◌+◌, ◌-◌, ◌%◌, ◌≡◌, refl, ◌∙◌, ap, Bool, true, false, Option, none, some, List, [], ◌∷◌,
  arith, Table, if◌then◌else◌, ◌==◌, nat_equality, nat_beq_iff, Option-cases, inl, inr, count, ◌&&◌,
  eq_self, lookup-insert, NodupKeys, adjust-NodupKeys, insert-NodupKeys,
}
use clice.CompileGraph.State.{
  CompileUnit, Graph, find_unit, edit, touch, add_unit, has_unit, refcount, default_unit,
}
use clice.CompileGraph.State.View.{find_unit-edit}
use clice.CompileGraph.State.Shape.{
  core, shape, shape-edit_same, shape-touch, has_unit-touch, has_unit-edit,
}
use clice.CompileGraph.Interest.{
  acquire, schedule_check, wants_check, release, cancel_round, zero_interest_check, cancel_each,
  cancel_all,
}

-- Beside the interest counts and the sources `h` is `g`.
pub record Keeps (g h : Graph) : Type 0 where
  pub shapes : (n : ℕ) → shape h n ≡ shape g n
  pub rounds : h.rounds ≡ g.rounds
  pub next_round : h.next_round ≡ g.next_round
  pub closing : h.closing ≡ g.closing
  pub nodup : NodupKeys g.units → NodupKeys h.units

-- So are the interest counts.
pub record Quiet (g h : Graph) : Type 0 where
  pub keeps : Keeps g h
  pub units : (n : ℕ) → has_unit h n ≡ has_unit g n
  pub counts : (n : ℕ) → refcount h n ≡ refcount g n

pub Keeps-trans : {g h k : Graph} → Keeps g h → Keeps h k → Keeps g k
Keeps-trans a b = record {
  shapes = λ n. b.shapes n ∙ a.shapes n;
  rounds = b.rounds ∙ a.rounds;
  next_round = b.next_round ∙ a.next_round;
  closing = b.closing ∙ a.closing;
  nodup = λ h. b.nodup (a.nodup h);
}

pub Quiet-trans : {g h k : Graph} → Quiet g h → Quiet h k → Quiet g k
Quiet-trans a b = record {
  keeps = Keeps-trans a.keeps b.keeps;
  units = λ n. b.units n ∙ a.units n;
  counts = λ n. b.counts n ∙ a.counts n;
}

pub Quiet-refl : (g : Graph) → Quiet g g
Quiet-refl g = record {
  keeps = record {
    shapes = λ n. refl;
    rounds = refl;
    next_round = refl;
    closing = refl;
    nodup = λ h. h;
  };
  units = λ n. refl;
  counts = λ n. refl;
}

if-Quiet : {g h k : Graph} (b : Bool) → Quiet g h → Quiet g k → Quiet g (if b then h else k)
if-Quiet true q r = q
if-Quiet false q r = r

pub refcount-edit :
    (p : ℕ) (h : CompileUnit → CompileUnit) (g : Graph) (n : ℕ)
    → ((u : CompileUnit) → (h u).refcount ≡ u.refcount)
    → refcount (edit p h g) n ≡ refcount g n
unfolding refcount
refcount-edit p h g n keeps = ap counts (find_unit-edit p h g n) ∙ inner (p == n) (find_unit g n)
  where
    counts : Option CompileUnit → ℕ
    counts o = elim o [ none ↦ 0 | some u ↦ u.refcount ]

    inner :
        (b : Bool) (o : Option CompileUnit) → counts (if b then Option.map h o else o) ≡ counts o
    inner false o = refl
    inner true none = refl
    inner true (some u) = keeps u

abbrev lowered : CompileUnit → CompileUnit
lowered u = record u { refcount = (u.refcount + u32 - 1) % u32 }

abbrev raised : ℕ → CompileUnit → CompileUnit
raised p u = record u { path_id = p; refcount = (u.refcount + 1) % u32 }

raised-count :
    (p : ℕ) (g : Graph) (n : ℕ)
    → has_unit g p ≡ true
    → refcount (edit p (raised p) g) n ≡ (if p == n then (refcount g n + 1) % u32 else refcount g n)
unfolding refcount has_unit
raised-count p g n present = ground (arith, find_unit-edit p (raised p) g n, nat_beq_iff p n)

lowered-count :
    (p : ℕ) (g : Graph) (n : ℕ)
    → has_unit g p ≡ true
    → refcount (edit p lowered g) n
      ≡ (if p == n then (refcount g n + u32 - 1) % u32 else refcount g n)
unfolding refcount has_unit
lowered-count p g n present = ground (arith, find_unit-edit p lowered g n, nat_beq_iff p n)

pub edit-Quiet :
    (p : ℕ) (h : CompileUnit → CompileUnit) (g : Graph)
    → ((u : CompileUnit) → core (h u) ≡ core u)
    → ((u : CompileUnit) → (h u).refcount ≡ u.refcount)
    → Quiet g (edit p h g)
unfolding edit
edit-Quiet p h g same count = record {
  keeps = record {
    shapes = λ n. shape-edit_same p h g n same;
    rounds = refl;
    next_round = refl;
    closing = refl;
    nodup = adjust-NodupKeys p h g.units;
  };
  units = λ n. has_unit-edit p h g n;
  counts = λ n. refcount-edit p h g n count;
}

-- A change of members that the record does not speak of.
other_members :
    {g h : Graph} (cancelled checks : List ℕ) (next_source : ℕ)
    → Quiet g h
    → Quiet g (record h { cancelled = cancelled; checks = checks; next_source = next_source })
unfolding has_unit refcount
other_members cancelled checks next_source q = record {
  keeps = record {
    shapes = q.keeps.shapes;
    rounds = q.keeps.rounds;
    next_round = q.keeps.next_round;
    closing = q.keeps.closing;
    nodup = q.keeps.nodup;
  };
  units = q.units;
  counts = q.counts;
}

pub cancel_round-Quiet : (p : ℕ) (g : Graph) → Quiet g (cancel_round p g)
unfolding cancel_round
cancel_round-Quiet p g = elim (Option-cases (find_unit g p)) [
  | inl e ↦ rw (e, cancel_round) (Quiet-refl g)
  | inr (u, e) ↦
      rw (e, cancel_round)
        (other_members _ _ _
          (edit-Quiet p (λ v. record v { source = g.next_source }) g (λ v. refl) (λ v. refl)))
]

pending-Quiet :
    (p : ℕ) (b : Bool) (g : Graph) → Quiet g (edit p (λ u. record u { zero_check_pending = b }) g)
pending-Quiet p b g =
    edit-Quiet p (λ u. record u { zero_check_pending = b }) g (λ u. refl) (λ u. refl)

schedule_check-Quiet : (p : ℕ) (g : Graph) → Quiet g (schedule_check p g)
unfolding schedule_check
schedule_check-Quiet p g =
    if-Quiet g.closing
      (Quiet-trans (pending-Quiet p true g)
        (pending-Quiet p false (edit p (λ u. record u { zero_check_pending = true }) g)))
      (other_members _ _ _ (pending-Quiet p true g))

pub zero_interest_check-Quiet : (p : ℕ) (g : Graph) → Quiet g (zero_interest_check p g)
unfolding zero_interest_check
zero_interest_check-Quiet p g = decided (find_unit (edit p settle g) p)
  where
    settle : CompileUnit → CompileUnit
    settle u = record u { zero_check_pending = false }

    decided :
        (o : Option CompileUnit)
        → Quiet g (elim o [
          | none ↦ edit p settle g
          | some u ↦
              if (u.refcount == 0) && u.compiling
              then cancel_round p (edit p settle g)
              else edit p settle g
        ])
    decided none = pending-Quiet p false g
    decided (some u) =
        if-Quiet ((u.refcount == 0) && u.compiling)
          (Quiet-trans (pending-Quiet p false g) (cancel_round-Quiet p (edit p settle g)))
          (pending-Quiet p false g)

pub cancel_each-Quiet : (units : Table ℕ CompileUnit) (g : Graph) → Quiet g (cancel_each units g)
unfolding cancel_each
cancel_each-Quiet [] g = Quiet-refl g
cancel_each-Quiet ((p, u) ∷ units) g =
    Quiet-trans (cancel_round-Quiet p g) (cancel_each-Quiet units _)

pub cancel_all-Quiet : (g : Graph) → Quiet g (cancel_all g)
unfolding cancel_all
cancel_all-Quiet g = cancel_each-Quiet g.units g

touch-nodup : (p : ℕ) (g : Graph) → NodupKeys g.units → NodupKeys (touch p g).units
unfolding touch add_unit
touch-nodup p g h = elim (Option-cases (find_unit g p)) [
  | inl e ↦ rw (e, touch) (insert-NodupKeys p (default_unit g.next_source) g.units h)
  | inr (u, e) ↦ rw (e, touch) h
]

pub touch-Keeps : (p : ℕ) (g : Graph) → Keeps g (touch p g)
unfolding touch
touch-Keeps p g = record {
  shapes = shape-touch p g;
  rounds = ground arith;
  next_round = ground arith;
  closing = ground arith;
  nodup = touch-nodup p g;
}

pub edit-Keeps :
    (p : ℕ) (h : CompileUnit → CompileUnit) (g : Graph)
    → ((u : CompileUnit) → core (h u) ≡ core u)
    → Keeps g (edit p h g)
unfolding edit
edit-Keeps p h g same = record {
  shapes = λ n. shape-edit_same p h g n same;
  rounds = refl;
  next_round = refl;
  closing = refl;
  nodup = adjust-NodupKeys p h g.units;
}

pub acquire-Keeps : (p : ℕ) (g : Graph) → Keeps g (acquire p g)
unfolding acquire
acquire-Keeps p g = Keeps-trans (touch-Keeps p g) (edit-Keeps p _ (touch p g) (λ u. refl))

-- Behind the decrement a release is quiet.
release-Quiet : (p : ℕ) (g : Graph) → Quiet (edit p lowered g) (release p g)
unfolding release
release-Quiet p g = decided (find_unit (edit p lowered g) p)
  where
    decided :
        (o : Option CompileUnit)
        → Quiet (edit p lowered g) (elim o [
          | none ↦ edit p lowered g
          | some u ↦ if wants_check u then schedule_check p (edit p lowered g) else edit p lowered g
        ])
    decided none = Quiet-refl _
    decided (some u) = if-Quiet (wants_check u) (schedule_check-Quiet p _) (Quiet-refl _)

pub release-Keeps : (p : ℕ) (g : Graph) → Keeps g (release p g)
release-Keeps p g = Keeps-trans (edit-Keeps p lowered g (λ u. refl)) (release-Quiet p g).keeps

pub acquire-units :
    (p : ℕ) (g : Graph) (n : ℕ) → has_unit (acquire p g) n ≡ (if p == n then true else has_unit g n)
unfolding acquire
acquire-units p g n = has_unit-edit p (raised p) (touch p g) n ∙ has_unit-touch p g n

pub release-units : (p : ℕ) (g : Graph) (n : ℕ) → has_unit (release p g) n ≡ has_unit g n
release-units p g n = (release-Quiet p g).units n ∙ has_unit-edit p lowered g n

pub refcount-touch : (p : ℕ) (g : Graph) (n : ℕ) → refcount (touch p g) n ≡ refcount g n
unfolding touch default_unit refcount add_unit
refcount-touch p g n = elim (Option-cases (find_unit g p)) [
  | inl e ↦
      rw (e, touch)
        (ground (arith, e, lookup-insert p n (default_unit g.next_source) g.units, nat_beq_iff p n))
  | inr (u, e) ↦ rw (e, touch)
]

-- `acquire` raises the count of its unit by one, in 32 bits.
pub refcount-acquire :
    (p : ℕ) (g : Graph) (n : ℕ)
    → refcount (acquire p g) n ≡ (if p == n then (refcount g n + 1) % u32 else refcount g n)
unfolding acquire
refcount-acquire p g n =
    raise (touch p g) (has_unit-touch p g p ∙ rw (eq_self p)) ∙ rw (refcount-touch p g n)
  where
    raise :
        (h : Graph)
        → has_unit h p ≡ true
        → refcount (edit p (raised p) h) n
          ≡ (if p == n then (refcount h n + 1) % u32 else refcount h n)
    raise h present = raised-count p h n present

pub refcount-release :
    (p : ℕ) (g : Graph) (n : ℕ)
    → has_unit g p ≡ true
    → refcount (release p g) n ≡ (if p == n then (refcount g n + u32 - 1) % u32 else refcount g n)
refcount-release p g n present = (release-Quiet p g).counts n ∙ lowered-count p g n present
