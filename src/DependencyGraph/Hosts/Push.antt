-- ===== src/DependencyGraph/Hosts/Push.antt =====
-- src/syntax/dependency_graph.cpp: what the inner loop of find_host_sources does to its variables.
use clice.Base.{
  ℕ, ◌+◌, ◌≤◌, ◌≡◌, ◌≢◌, refl, ◌∙◌, inl, inr, ◌⊎◌, true, not, ◌&&◌, ◌||◌, List, [], ◌∷◌, Table,
  lookup, contains, count, length, if◌then◌else◌, ◌==◌, nat_equality, nat_beq_iff, arith,
  contains-append, Bool-cases, contains_head, contains_tail,
}
use clice.Worklist.{budget, budget-visit}
use clice.DependencyGraph.{vector_of, Search, push_one, push_new, all_includers}

abbrev pub one : ℕ → ℕ
one n = 1

-- What the inner loop does to the queue and the visited set.
pub record Pushed (ds : List ℕ) (s t : Search) : Type 0 where
  pub visits : (n : ℕ) → contains t.visited n ≡ (contains s.visited n || contains ds n)
  pub queues :
      (n : ℕ)
      → count n t.queue
        ≡ count n s.queue + (if contains ds n && not (contains s.visited n) then 1 else 0)
  pub same_result : t.result ≡ s.result

pub push_one-Pushed : (d : ℕ) (s : Search) → Pushed (d ∷ []) s (push_one d s)
unfolding push_one contains count
push_one-Pushed d s = elim (Bool-cases (contains s.visited d)) [
  | inl e ↦ rw e (record {
    visits = λ n. ground (arith, e, nat_beq_iff d n);
    queues = λ n. ground (arith, e, nat_beq_iff d n);
    same_result = refl;
  })
  | inr e ↦ rw e (record {
    visits = λ n. ground arith;
    queues = λ n. ground (arith, e, nat_beq_iff d n);
    same_result = refl;
  })
]

pub push_new-Pushed : (ds : List ℕ) (s : Search) → Pushed ds s (push_new ds s)
unfolding push_new contains count
push_new-Pushed [] s = record {
  visits = λ n. ground arith;
  queues = λ n. ground arith;
  same_result = refl;
}
push_new-Pushed (d ∷ ds) s =
    let first = push_one-Pushed d s in
    let rest = push_new-Pushed ds (push_one d s) in
    record {
      visits = λ n. ground (arith, first.visits n, rest.visits n);
      queues = λ n. ground (arith, first.visits n, first.queues n, rest.visits n, rest.queues n);
      same_result = rest.same_result ∙ first.same_result;
    }

pub push_one-budget :
    (nodes : List ℕ) (d : ℕ) (s : Search)
    → contains nodes d ≡ true
    → budget one nodes (push_one d s).visited + length (push_one d s).queue
      ≤ budget one nodes s.visited + length s.queue
unfolding push_one
push_one-budget nodes d s known = elim (Bool-cases (contains s.visited d)) [
  | inl e ↦ rw e (omega arith)
  | inr e ↦ rw e (ground (arith, budget-visit one nodes s.visited d e known))
]

pub push_new-budget :
    (nodes ds : List ℕ) (s : Search)
    → ((n : ℕ) → contains ds n ≡ true → contains nodes n ≡ true)
    → budget one nodes (push_new ds s).visited + length (push_new ds s).queue
      ≤ budget one nodes s.visited + length s.queue
unfolding push_new
push_new-budget nodes [] s sub = omega arith
push_new-budget nodes (d ∷ ds) s sub = omega (
  arith,
  push_one-budget nodes d s (sub d (contains_head d ds)),
  push_new-budget nodes ds (push_one d s) (λ n h. sub n (contains_tail d ds n h)),
)

pub cons≢nil : {x : ℕ} {xs : List ℕ} → x ∷ xs ≢ []
cons≢nil h = cc

pub list_cases : (xs : List ℕ) → (xs ≡ []) ⊎ ((x : ℕ) × (rest : List ℕ) × (xs ≡ x ∷ rest))
list_cases [] = inl refl
list_cases (x ∷ xs) = inr (x, xs, refl)

pub known_in_table :
    (m : Table ℕ (List ℕ)) (c n : ℕ)
    → contains (vector_of (lookup c m)) n ≡ true
    → contains (all_includers m) n ≡ true
unfolding lookup vector_of all_includers contains
known_in_table [] c n h = h
known_in_table ((k, v) ∷ m) c n h = elim (Bool-cases (k == c)) [
  | inl e ↦ ground (arith, e, contains-append v (all_includers m) n)
  | inr e ↦ ground (arith, e, known_in_table m c n, contains-append v (all_includers m) n)
]

pub budget_small : (nodes v : List ℕ) → budget one nodes v ≤ length nodes
unfolding budget
budget_small [] v = omega arith
budget_small (n ∷ nodes) v = ground (arith, budget_small nodes v)
