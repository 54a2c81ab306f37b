-- ===== src/CompileGraph/WaitCycle/Decides.antt =====
-- The walk of `has_wait_cycle` (src/server/compiler/compile_graph.cpp) against paths through the
-- units that compile.
use clice.Base.{
  ℕ, ◌≤◌, ◌≡◌, ◌⊎◌, refl, inl, inr, Bool, true, false, Option, none, some, List, [], ◌∷◌, arith,
  keys, length, contains, contains_cases, contains_tail, if◌then◌else◌, ◌==◌, nat_equality,
  Bool-cases, subst, contains_head, lookup-missing,
}
use clice.Worklist.{stop, push, Outcome, stopped, finished, run_lem, Reach, Fits, Ends}
use clice.CompileGraph.State.{Graph, is_compiling}
use clice.CompileGraph.Update.{dependencies_of}
use clice.CompileGraph.WaitCycle.{scan_dependencies, cycle_visit, has_wait_cycle}

missing-dependencies :
    (g : Graph) (c : ℕ) → contains (keys g.units) c ≡ false → length (dependencies_of g c) ≤ 0
unfolding dependencies_of
missing-dependencies g c h = ground (arith, lookup-missing c g.units h)

module _ (g : Graph) where
  -- A dependency that compiles.
  abbrev pub WaitsFor : ℕ → ℕ → Type 0
  WaitsFor c d = (contains (dependencies_of g c) d ≡ true) × (is_compiling g d ≡ true)

  module _ (waiter : ℕ) where
    abbrev Scans : List ℕ → Option (List ℕ) → Type 0
    Scans ds none = contains ds waiter ≡ true
    Scans ds (some pushed) =
        (contains ds waiter ≡ false)
        × (length pushed ≤ length ds)
        × ((d : ℕ) → contains pushed d ≡ true → (contains ds d ≡ true) × (is_compiling g d ≡ true))
        × ((d : ℕ) → contains ds d ≡ true → is_compiling g d ≡ true → contains pushed d ≡ true)

    scan_step :
        (d : ℕ) (ds : List ℕ) (rest : Option (List ℕ))
        → (d == waiter) ≡ false
        → Scans ds rest
        → Scans (d ∷ ds) (elim rest [
          | none ↦ none
          | some pushed ↦ some (if is_compiling g d then d ∷ pushed else pushed)
        ])
    unfolding contains
    scan_step d ds none other s = ground arith
    scan_step d ds (some pushed) other (free, short, sound, complete) =
        elim (Bool-cases (is_compiling g d)) [
          | inl on ↦ rw on (
            rw other free,
            omega arith,
            λ n h. elim (contains_cases d pushed n h) [
              | inl same ↦
                  subst (λ x. (contains (d ∷ ds) x ≡ true) × (is_compiling g x ≡ true)) same
                    (contains_head d ds, on)
              | inr h' ↦ (contains_tail d ds n (sound n h').0, (sound n h').1)
            ],
            λ n h k. elim (contains_cases d ds n h) [
              | inl same ↦ subst (λ x. contains (d ∷ pushed) x ≡ true) same (contains_head d pushed)
              | inr h' ↦ contains_tail d pushed n (complete n h' k)
            ],
          )
          | inr off ↦ rw off (
            rw other free,
            omega arith,
            λ n h. (contains_tail d ds n (sound n h).0, (sound n h).1),
            λ n h k. elim (contains_cases d ds n h) [
              | inl same ↦ cc (subst (λ x. is_compiling g x ≡ false) same off)
              | inr h' ↦ complete n h' k
            ],
          )
        ]

    scan_dependencies-Scans : (ds : List ℕ) → Scans ds (scan_dependencies g waiter ds)
    unfolding scan_dependencies contains
    scan_dependencies-Scans [] = (refl, omega arith, λ d h. cc, λ d h k. h)
    scan_dependencies-Scans (d ∷ ds) = elim (Bool-cases (d == waiter)) [
      | inl same ↦ rw same (rw same)
      | inr other ↦
          rw other
            (scan_step d ds (scan_dependencies g waiter ds) other (scan_dependencies-Scans ds))
    ]

    -- The visited units do not depend on the waiter.
    abbrev Clear : Unit {0} → List ℕ → Type 0
    Clear s v = (c : ℕ) → contains v c ≡ true → contains (dependencies_of g c) waiter ≡ false

    module _ (target : ℕ) where
      abbrev pub Found : Type 0
      Found = (c : ℕ) × Reach WaitsFor target c × (contains (dependencies_of g c) waiter ≡ true)

      abbrev nodes : List ℕ
      nodes = keys g.units

      abbrev weight : ℕ → ℕ
      weight n = length (dependencies_of g n)

      visit_cases :
          (v : List ℕ) (c : ℕ) (r : Option (List ℕ))
          → Clear tt v
          → Reach WaitsFor target c
          → (contains nodes c ≡ false → length (dependencies_of g c) ≤ 0)
          → Scans (dependencies_of g c) r
          → Fits
              (cycle_visit g waiter)
              WaitsFor
              target
              Clear
              (λ _. Found)
              weight
              nodes
              v
              c
              (elim r [ none ↦ stop tt | some pushed ↦ push tt pushed ])
      visit_cases v c none clear r gone s = (c, r, s)
      visit_cases v c (some pushed) clear r gone (free, short, sound, complete) = (
        λ n h. elim (contains_cases c v n h) [
          | inl same ↦ subst (λ x. contains (dependencies_of g x) waiter ≡ false) same free
          | inr h' ↦ clear n h'
        ],
        sound,
        λ d e. inl (complete d e.0 e.1),
        short,
        λ h. omega (arith, gone h),
      )

      visit-Fits :
          (s : Unit {0}) (v : List ℕ) (c : ℕ)
          → Clear s v
          → Reach WaitsFor target c
          → (c ≡ target) ⊎ (contains v target ≡ true)
          → contains v c ≡ false
          → Fits
              (cycle_visit g waiter)
              WaitsFor
              target
              Clear
              (λ _. Found)
              weight
              nodes
              v
              c
              (cycle_visit g waiter s c)
      unfolding cycle_visit
      visit-Fits s v c clear r begun new =
          visit_cases v c _ clear r (missing-dependencies g c)
            (scan_dependencies-Scans (dependencies_of g c))

      abbrev pub Answers : Option Bool → Type 0
      Answers none = ⊥
      Answers (some true) = Found
      Answers (some false) =
          (c : ℕ) → Reach WaitsFor target c → contains (dependencies_of g c) waiter ≡ false

      answer_cases :
          (r : Option (Outcome (Unit {0}) (Unit {0})))
          → Ends (cycle_visit g waiter) WaitsFor target Clear (λ _. Found) weight nodes r
          → Answers (elim r [
            | none ↦ none
            | some (stopped r) ↦ some true
            | some (finished s visited) ↦ some false
          ])
      answer_cases none e = e
      answer_cases (some (stopped r)) found = found
      answer_cases (some (finished s v)) (clear, seen, all) = λ c r. clear c (all c r)

      -- `has_wait_cycle` answers within its fuel: true with a unit that the target reaches through
      -- units that compile and that depends on the waiter, false where there is no such unit.
      pub has_wait_cycle-Answers : Answers (has_wait_cycle g target waiter)
      unfolding has_wait_cycle contains
      has_wait_cycle-Answers = answer_cases _ (
          run_lem (cycle_visit g waiter) WaitsFor target Clear (λ _. Found) weight nodes visit-Fits
            tt (λ c h. cc))
