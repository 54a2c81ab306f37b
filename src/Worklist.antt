-- ===== src/Worklist.antt =====
-- The loop that walks a graph with a stack and a visited set, as `CompileGraph::update` and
-- `CompileGraph::has_wait_cycle` (src/server/compiler/compile_graph.cpp) write it: pop the back of
-- `queue`, go on if it was in `visited`, look the node up and push the nodes to go to. The top of
-- the stack is the head of the list.
use mathlib.Core.Bool.{false≢true}
use clice.Base.{
  ℕ, zero, suc, ◌+◌, ◌≤◌, ◌<◌, ◌≡◌, refl, ◌⊎◌, inl, inr, true, false, Option, none, some, List, [],
  ◌∷◌, arith, length, contains, push_all, length-push_all, if◌then◌else◌, Bool-cases, eq_self, ◌==◌,
  nat_equality, nat_beq_iff, contains_cases, contains_head, contains_tail, contains-push_all_cases,
  contains-push_all_new, contains-push_all_old, subst, sym,
}

-- What a visit of one node does: it leaves the loop with a result, or goes on with more nodes.
pub data Visit (S R : Type 0) : Type 0 where
  stop : R → Visit S R
  push : S → List ℕ → Visit S R

pub data Outcome (S R : Type 0) : Type 0 where
  stopped : R → Outcome S R
  finished : S → List ℕ → Outcome S R

pub data Reach (E : ℕ → ℕ → Type 0) (r : ℕ) : ℕ → Type 0 where
  here : Reach E r r
  next : {a b : ℕ} → Reach E r a → E a b → Reach E r b

-- How many pushes the nodes that are not visited can still make.
unfoldable pub budget : (ℕ → ℕ) → List ℕ → List ℕ → ℕ
budget w [] v = 0
budget w (n ∷ nodes) v = (if contains v n then 0 else w n) + budget w nodes v

module _ {S R : Type 0} (step : S → ℕ → Visit S R) where
  -- `none` means that the fuel ran out.
  unfoldable pub run : ℕ → S → List ℕ → List ℕ → Option (Outcome S R)
  run zero s queue visited = none
  run (suc f) s [] visited = some (finished s visited)
  run (suc f) s (c ∷ queue) visited = elim (contains visited c) [
    | true ↦ run f s queue visited
    | false ↦ elim (step s c) [
      | stop r ↦ some (stopped r)
      | push s' ds ↦ run f s' (push_all ds queue) (c ∷ visited)
    ]
  ]

budget_mono : (w : ℕ → ℕ) (nodes v : List ℕ) (c : ℕ) → budget w nodes (c ∷ v) ≤ budget w nodes v
unfolding budget contains
budget_mono w [] v c = omega arith
budget_mono w (n ∷ nodes) v c = ground (arith, budget_mono w nodes v c)

pub budget-visit :
    (w : ℕ → ℕ) (nodes v : List ℕ) (c : ℕ)
    → contains v c ≡ false
    → contains nodes c ≡ true
    → budget w nodes (c ∷ v) + w c ≤ budget w nodes v
unfolding budget contains
budget-visit w [] v c new h = ground arith
budget-visit w (n ∷ nodes) v c new h = elim (Bool-cases (n == c)) [
  | inl e ↦ rw ((nat_beq_iff n c).0 e, new, eq_self c) (omega (arith, budget_mono w nodes v c))
  | inr d ↦ ground (arith, budget-visit w nodes v c new, nat_beq_iff c n, nat_beq_iff n c)
]

module _ {S R : Type 0} (step : S → ℕ → Visit S R) (E : ℕ → ℕ → Type 0) (root : ℕ) where
  module _ (Inv : S → List ℕ → Type 0) (Q : R → Type 0) (w : ℕ → ℕ) (nodes : List ℕ) where
    -- What is asked of a visit: the nodes that it pushes are neighbours, no neighbour is missed, and
    -- the node pays for the pushes.
    abbrev pub Fits : List ℕ → ℕ → Visit S R → Type 0
    Fits v c (stop r) = Q r
    Fits v c (push s ds) =
        Inv s (c ∷ v)
        × ((d : ℕ) → contains ds d ≡ true → E c d)
        × ((d : ℕ) → E c d → (contains ds d ≡ true) ⊎ (contains (c ∷ v) d ≡ true))
        × (length ds ≤ w c)
        × (contains nodes c ≡ false → length ds ≤ 0)

    -- The loop ended, and at its regular end the visited nodes are those that can be reached.
    abbrev pub Ends : Option (Outcome S R) → Type 0
    Ends none = ⊥
    Ends (some (stopped r)) = Q r
    Ends (some (finished s v)) =
        Inv s v
        × ((n : ℕ) → contains v n ≡ true → Reach E root n)
        × ((n : ℕ) → Reach E root n → contains v n ≡ true)

    record Walk (f : ℕ) (s : S) (queue v : List ℕ) : Type 0 where
      inv : Inv s v
      queued : (n : ℕ) → contains queue n ≡ true → Reach E root n
      seen : (n : ℕ) → contains v n ≡ true → Reach E root n
      closed :
          (n d : ℕ)
          → contains v n ≡ true
          → E n d
          → (contains v d ≡ true) ⊎ (contains queue d ≡ true)
      begun : ((queue ≡ root ∷ []) × (v ≡ [])) ⊎ (contains v root ≡ true)
      fuel : length queue + budget w nodes v < f

    module _
        (visit-Fits : (s : S) (v : List ℕ) (c : ℕ)
          → Inv s v
          → Reach E root c
          → (c ≡ root) ⊎ (contains v root ≡ true)
          → contains v c ≡ false
          → Fits v c (step s c)) where
      all_seen :
          {s : S} {v : List ℕ} {f : ℕ}
          → Walk f s [] v
          → (n : ℕ) → Reach E root n
          → contains v n ≡ true
      unfolding contains
      all_seen k n here = elim k.begun [ inl (h, _) ↦ cc | inr h ↦ h ]
      all_seen k n (next {a = a} r e) = elim (k.closed a n (all_seen k a r) e) [
        | inl h ↦ h
        | inr h ↦ cc
      ]

      -- The root is the first node that is visited.
      first :
          {f : ℕ} {s : S} {c : ℕ} {queue v : List ℕ}
          → Walk f s (c ∷ queue) v
          → (c ≡ root) ⊎ (contains v root ≡ true)
      first k = elim k.begun [ inl (h, _) ↦ inl (cc) | inr h ↦ inr h ]

      -- The node on top was visited before.
      Walk-pop :
          {f : ℕ} {s : S} {c : ℕ} {queue v : List ℕ}
          → Walk (suc f) s (c ∷ queue) v
          → contains v c ≡ true
          → Walk f s queue v
      unfolding contains
      Walk-pop {c} {queue} {v} k old = record {
        inv = k.inv;
        queued = λ n h. k.queued n (contains_tail c queue n h);
        seen = k.seen;
        closed = λ n d hn e. elim (k.closed n d hn e) [ inl h ↦ inl h | inr h ↦ still d h ];
        begun = elim k.begun [
          | inl (_, none_yet) ↦ absurd (false≢true (subst (λ x. contains x c ≡ true) none_yet old))
          | inr h ↦ inr h
        ];
        fuel = omega (arith, k.fuel);
      }
        where
          still :
              (d : ℕ)
              → contains (c ∷ queue) d ≡ true
              → (contains v d ≡ true) ⊎ (contains queue d ≡ true)
          still d h = elim (contains_cases c queue d h) [
            | inl same ↦ inl (subst (λ x. contains v x ≡ true) same old)
            | inr h' ↦ inr h'
          ]

      -- The node on top is new, and its neighbours are pushed.
      Walk-push :
          {f : ℕ} {s s' : S} {c : ℕ} {queue v : List ℕ} (ds : List ℕ)
          → Walk (suc f) s (c ∷ queue) v
          → contains v c ≡ false
          → Fits v c (push s' ds)
          → Walk f s' (push_all ds queue) (c ∷ v)
      Walk-push {f} {c} {queue} {v} ds k new fits = record {
        inv = fits.0;
        queued = λ n h. elim (contains-push_all_cases ds queue n h) [
          | inl h' ↦ next (k.queued c (contains_head c queue)) (fits.1 n h')
          | inr h' ↦ k.queued n (contains_tail c queue n h')
        ];
        seen = λ n h. elim (contains_cases c v n h) [
          | inl same ↦ subst (Reach E root) same (k.queued c (contains_head c queue))
          | inr h' ↦ k.seen n h'
        ];
        closed = λ n d hn e. elim (contains_cases c v n hn) [
          | inl same ↦ elim (fits.2 d (subst (λ x. E x d) (sym same) e)) [
            | inl h ↦ inr (contains-push_all_new ds queue d h)
            | inr h ↦ inl h
          ]
          | inr hn' ↦ elim (k.closed n d hn' e) [
            | inl h ↦ inl (contains_tail c v d h)
            | inr h ↦ still d h
          ]
        ];
        begun = inr (elim (first k) [
          | inl same ↦ subst (λ x. contains (c ∷ v) x ≡ true) same (contains_head c v)
          | inr h ↦ contains_tail c v root h
        ]);
        fuel = enough;
      }
        where
          still :
              (d : ℕ)
              → contains (c ∷ queue) d ≡ true
              → (contains (c ∷ v) d ≡ true) ⊎ (contains (push_all ds queue) d ≡ true)
          still d h = elim (contains_cases c queue d h) [
            | inl same ↦ inl (subst (λ x. contains (c ∷ v) x ≡ true) same (contains_head c v))
            | inr h' ↦ inr (contains-push_all_old ds queue d h')
          ]

          enough : length (push_all ds queue) + budget w nodes (c ∷ v) < f
          enough = elim (Bool-cases (contains nodes c)) [
            | inl h ↦
                omega
                  (arith, k.fuel, length-push_all ds queue, budget-visit w nodes v c new h, fits.3)
            | inr h ↦
                omega (arith, k.fuel, length-push_all ds queue, budget_mono w nodes v c, fits.4 h)
          ]

      run-Ends : (f : ℕ) (s : S) (queue v : List ℕ) → Walk f s queue v → Ends (run step f s queue v)
      unfolding run
      run-Ends zero s queue v k = absurd (omega (arith, k.fuel))
      run-Ends (suc f) s [] v k = (k.inv, k.seen, all_seen k)
      run-Ends (suc f) s (c ∷ queue) v k = elim (Bool-cases (contains v c)) [
        | inl old ↦ rw (old, run) (run-Ends f s queue v (Walk-pop k old))
        | inr new ↦
            rw (new, run)
              (visited (λ s' ds. run-Ends f s' (push_all ds queue) (c ∷ v)) new (step s c)
                (visit-Fits s v c k.inv (k.queued c (contains_head c queue)) (first k) new))
      ]
        where
          visited :
              ((s' : S) (ds : List ℕ)
                → Walk f s' (push_all ds queue) (c ∷ v)
                → Ends (run step f s' (push_all ds queue) (c ∷ v)))
              → contains v c ≡ false
              → (x : Visit S R) → Fits v c x
              → Ends (elim x [
                | stop r ↦ some (stopped r)
                | push s' ds ↦ run step f s' (push_all ds queue) (c ∷ v)
              ])
          visited ih new (stop r) q = q
          visited ih new (push s' ds) fits = ih s' ds (Walk-push ds k new fits)

      -- From the root alone, with the fuel for every push.
      pub run_lem : (s : S) → Inv s [] → Ends (run step (2 + budget w nodes []) s (root ∷ []) [])
      unfolding contains
      run_lem s i = run-Ends (2 + budget w nodes []) s (root ∷ []) [] (record {
        inv = i;
        queued = λ n h. elim (contains_cases root [] n h) [
          | inl same ↦ subst (Reach E root) same here
          | inr h' ↦ absurd (false≢true h')
        ];
        seen = λ n h. absurd (false≢true h);
        closed = λ n d h. absurd (false≢true h);
        begun = inl (refl, refl);
        fuel = omega arith;
      })
