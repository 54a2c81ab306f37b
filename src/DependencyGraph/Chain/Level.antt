-- ===== src/DependencyGraph/Chain/Level.antt =====
-- src/syntax/dependency_graph.cpp: one level of the search of find_include_chain.
use mathlib.Core.Bool.{false≢true, true≢false}
use clice.Base.{
  ℕ, suc, ◌+◌, ◌≤◌, ◌≡◌, ◌≢◌, refl, sym, subst, ◌∙◌, inl, inr, ◌⊎◌, Bool, true, false, Option, none,
  some, List, [], ◌∷◌, ◌++◌, map, Table, keys, lookup, insert, lookup-insert, contains, length,
  length-append, if◌then◌else◌, ◌==◌, nat_equality, nat_beq_iff, arith, contains-append, Bool-cases,
  eq_self, contains_cases, contains_head, contains_tail, contains_last_cases,
}
use clice.DependencyGraph.Hosts.Push.{one}
use clice.Worklist.{budget, budget-visit}
use clice.DependencyGraph.{
  DependencyGraph, path_of, get_all_includes, Levels, put_child, visit_children, visit_level,
}

keys-insert :
    (k v : ℕ) (t : Table ℕ ℕ) (n : ℕ)
    → lookup k t ≡ none
    → contains (keys (insert k v t)) n ≡ contains (k ∷ keys t) n
unfolding keys insert lookup contains
keys-insert k v [] n h = refl
keys-insert k v ((j, w) ∷ t) n h = ground (arith, h, keys-insert k v t n)

keys_missing : (k : ℕ) (t : Table ℕ ℕ) → lookup k t ≡ none → contains (keys t) k ≡ false
unfolding keys lookup contains
keys_missing k [] h = refl
keys_missing k ((j, w) ∷ t) h = ground (arith, h, keys_missing k t)

budget_same :
    (nodes v u : List ℕ)
    → ((n : ℕ) → contains v n ≡ contains u n)
    → budget one nodes v ≡ budget one nodes u
unfolding budget
budget_same [] v u h = refl
budget_same (n ∷ nodes) v u h = ground (arith, h n, budget_same nodes v u h)

-- A file that is found for the first time takes from what can be found.
budget-insert :
    (nodes : List ℕ) (k v : ℕ) (t : Table ℕ ℕ)
    → contains nodes k ≡ true
    → lookup k t ≡ none
    → suc (budget one nodes (keys (insert k v t))) ≤ budget one nodes (keys t)
budget-insert nodes k v t known absent =
    let less = budget-visit one nodes (keys t) k (keys_missing k t absent) known in
    let same =
      budget_same nodes (keys (insert k v t)) (k ∷ keys t) (λ n. keys-insert k v t n absent) in
    omega (arith, less, same)

pub chosen {κ} :
    {A : Type 0} (P : A → Type κ) (b : Bool) (x y : A)
    → (b ≡ true → P x)
    → (b ≡ false → P y)
    → P (if b then x else y)
chosen P true x y h k = h refl
chosen P false x y h k = k refl

-- `IncludesFile g a b`: `a` includes `b` in some configuration.
abbrev pub IncludesFile : DependencyGraph → ℕ → ℕ → Type 0
IncludesFile g a b = contains (map path_of (get_all_includes a g)) b ≡ true

module _ (g : DependencyGraph) (host target : ℕ) (nodes : List ℕ) where
  abbrev pub Known : Table ℕ ℕ → ℕ → Type 0
  Known prev n = (p : ℕ) × (lookup n prev ≡ some p)

  -- The files on the way back from a file to the host.
  pub data Trail (prev : Table ℕ ℕ) : ℕ → List ℕ → Type 0 where
    start : Trail prev host (host ∷ [])
    back :
        {n p : ℕ} {xs : List ℕ}
        → n ≢ host
        → lookup n prev ≡ some p
        → IncludesFile g p n
        → Trail prev p xs
        → Trail prev n (n ∷ xs)

  pub record Traced (prev : Table ℕ ℕ) (n : ℕ) : Type 0 where
    pub files : List ℕ
    pub trail : Trail prev n files
    pub short : length files ≤ length prev

  unfoldable pub Closed : Table ℕ ℕ → ℕ → Type 0
  Closed prev n = (m : ℕ) → IncludesFile g n m → Known prev m

  -- What holds while the files of `queue` wait, beside those of the next queue.
  pub record Search (queue : List ℕ) (l : Levels) : Type 0 where
    pub traced : (n : ℕ) → Known l.prev n → Traced l.prev n
    pub from_host : Known l.prev host
    pub at_target : l.found ≡ true → Known l.prev target
    pub not_yet : l.found ≡ false → lookup target l.prev ≡ none
    pub known_next : (n : ℕ) → contains l.next_queue n ≡ true → Known l.prev n
    pub settled :
        l.found ≡ false
        → (n : ℕ) → Known l.prev n
        → ((contains queue n ≡ true) ⊎ (contains l.next_queue n ≡ true)) ⊎ Closed l.prev n

  -- What a later state keeps.
  unfoldable pub Grows : Table ℕ ℕ → Table ℕ ℕ → Type 0
  Grows prev more = (n p : ℕ) → lookup n prev ≡ some p → lookup n more ≡ some p

  same_Grows : (prev : Table ℕ ℕ) → Grows prev prev
  unfolding Grows
  same_Grows prev n p h = h

  Trail-Grows :
      (prev more : Table ℕ ℕ) (n : ℕ) (xs : List ℕ)
      → Grows prev more
      → Trail prev n xs
      → Trail more n xs
  unfolding Grows
  Trail-Grows prev more _ _ gr start = start
  Trail-Grows prev more _ _ gr (back {n = n} {p = p} {xs = xs} o h i t) =
      back o (gr n p h) i (Trail-Grows prev more p xs gr t)

  insert-Grows : (k v : ℕ) (prev : Table ℕ ℕ) → lookup k prev ≡ none → Grows prev (insert k v prev)
  unfolding Grows
  insert-Grows k v prev absent n p h =
      ground (arith, h, absent, lookup-insert k n v prev, nat_beq_iff k n)

  length-insert :
      (k v : ℕ) (prev : Table ℕ ℕ)
      → lookup k prev ≡ none
      → length (insert k v prev) ≡ suc (length prev)
  unfolding insert lookup
  length-insert k v [] h = refl
  length-insert k v ((j, w) ∷ prev) h = ground (arith, h, length-insert k v prev)

  Known-insert : (k v n : ℕ) (prev : Table ℕ ℕ) → Known (insert k v prev) n → (k ≡ n) ⊎ Known prev n
  Known-insert k v n prev (p, h) = elim (Bool-cases (k == n)) [
    | inl e ↦ inl ((nat_beq_iff k n).0 e)
    | inr e ↦ inr (p, ground (arith, h, e, lookup-insert k n v prev))
  ]

  lookup_new : (k v : ℕ) (prev : Table ℕ ℕ) → lookup k (insert k v prev) ≡ some v
  lookup_new k v prev = ground (arith, lookup-insert k k v prev, eq_self k)

  pub Known-Grows : (prev more : Table ℕ ℕ) (n : ℕ) → Grows prev more → Known prev n → Known more n
  unfolding Grows
  Known-Grows prev more n gr (p, h) = (p, gr n p h)

  not_absent : (n : ℕ) (prev : Table ℕ ℕ) → lookup n prev ≡ none → Known prev n → ⊥
  not_absent n prev absent (p, h) = ground (arith, absent, h)

  later :
      (queue : List ℕ) (prev more : Table ℕ ℕ) (waiting : List ℕ) (child : ℕ)
      → Grows prev more
      → (n : ℕ) → ((contains queue n ≡ true) ⊎ (contains waiting n ≡ true)) ⊎ Closed prev n
      → ((contains queue n ≡ true) ⊎ (contains (waiting ++ (child ∷ [])) n ≡ true)) ⊎ Closed more n
  unfolding Closed
  later queue prev more waiting child gr n (inl (inl q)) = inl (inl q)
  later queue prev more waiting child gr n (inl (inr q)) =
      inl (inr (ground (arith, q, contains-append waiting (child ∷ []) n)))
  later queue prev more waiting child gr n (inr closed) =
      inr (λ m i. Known-Grows prev more m gr (closed m i))

  -- Every file is on a way back to the host after one more file was found.
  insert-Traced :
      (c child : ℕ) (prev : Table ℕ ℕ)
      → ((n : ℕ) → Known prev n → Traced prev n)
      → Known prev host
      → Known prev c
      → IncludesFile g c child
      → lookup child prev ≡ none
      → (n : ℕ) → Known (insert child c prev) n
      → Traced (insert child c prev) n
  insert-Traced c child prev traced from_host known includes absent n k =
      let more = insert child c prev in
      let gr = insert-Grows child c prev absent in
      let size = length-insert child c prev absent in
      let parent = traced c known in
      elim (Known-insert child c n prev k) [
        | inl e ↦
            subst (λ x. Traced more x) e
              (record {
                files = child ∷ parent.files;
                trail =
                    back
                      (λ same.
                        not_absent child prev absent
                          (subst (λ x. Known prev x) (sym same) from_host))
                      (lookup_new child c prev) includes
                      (Trail-Grows prev more c parent.files gr parent.trail);
                short = omega (arith, size, parent.short);
              })
        | inr old ↦
            let t = traced n old in
            record {
              files = t.files;
              trail = Trail-Grows prev more n t.files gr t.trail;
              short = omega (arith, size, t.short);
            }
      ]

  -- What a loop over the children of `c` keeps.
  record Step (c : ℕ) (queue : List ℕ) (l m : Levels) : Type 0 where
    search : Search (c ∷ queue) m
    pub grows : Grows l.prev m.prev
    pub spent :
        budget one nodes (keys m.prev) + length m.next_queue
        ≤ budget one nodes (keys l.prev) + length l.next_queue

  put_target :
      (c child : ℕ) (queue : List ℕ) (prev : Table ℕ ℕ) (waiting : List ℕ)
      → Search (c ∷ queue) (record { prev = prev; next_queue = waiting; found = false })
      → Known prev c
      → IncludesFile g c child
      → lookup child prev ≡ none
      → child ≡ target
      → Search
          (c ∷ queue)
          (record { prev = insert child c prev; next_queue = waiting; found = true })
  put_target c child queue prev waiting s known includes absent same =
      let gr = insert-Grows child c prev absent in
      record {
        traced = insert-Traced c child prev s.traced s.from_host known includes absent;
        from_host = Known-Grows prev (insert child c prev) host gr s.from_host;
        at_target =
            λ _. subst (λ x. Known (insert child c prev) x) same (c, lookup_new child c prev);
        not_yet = λ h. absurd (true≢false h);
        known_next = λ n h. Known-Grows prev (insert child c prev) n gr (s.known_next n h);
        settled = λ h. absurd (true≢false h);
      }

  put_other :
      (c child : ℕ) (queue : List ℕ) (prev : Table ℕ ℕ) (waiting : List ℕ)
      → Search (c ∷ queue) (record { prev = prev; next_queue = waiting; found = false })
      → Known prev c
      → IncludesFile g c child
      → lookup child prev ≡ none
      → child ≢ target
      → Search (c ∷ queue) (record {
        prev = insert child c prev;
        next_queue = waiting ++ (child ∷ []);
        found = false;
      })
  put_other c child queue prev waiting s known includes absent other =
      let more = insert child c prev in
      let gr = insert-Grows child c prev absent in
      record {
        traced = insert-Traced c child prev s.traced s.from_host known includes absent;
        from_host = Known-Grows prev more host gr s.from_host;
        at_target = λ h. absurd (false≢true h);
        not_yet = λ _. ground (
          arith,
          s.not_yet refl,
          other,
          lookup-insert child target c prev,
          nat_beq_iff child target,
        );
        known_next = λ n h. elim (contains_last_cases child waiting n h) [
          | inl e ↦ subst (λ x. Known more x) e (c, lookup_new child c prev)
          | inr old ↦ Known-Grows prev more n gr (s.known_next n old)
        ];
        settled = λ _ n k. elim (Known-insert child c n prev k) [
          | inl e ↦ inl (
              inr (
                subst (λ x. contains (waiting ++ (child ∷ [])) x ≡ true) e
                  (ground
                    (arith, contains-append waiting (child ∷ []) child, contains_head child []))))
          | inr old ↦ later (c ∷ queue) prev more waiting child gr n (s.settled refl n old)
        ];
      }

  put_child-Step :
      (c child : ℕ) (queue : List ℕ) (prev : Table ℕ ℕ) (waiting : List ℕ) (o : Option ℕ)
      → contains nodes child ≡ true
      → Search (c ∷ queue) (record { prev = prev; next_queue = waiting; found = false })
      → Known prev c
      → IncludesFile g c child
      → lookup child prev ≡ o
      → Step c queue
          (record { prev = prev; next_queue = waiting; found = false })
          (put_child o c target child (record { prev = prev; next_queue = waiting; found = false }))
  unfolding put_child Grows
  put_child-Step c child queue prev waiting (some p) inside s known includes e = record {
    search = s;
    grows = λ n q h. h;
    spent = omega arith;
  }
  put_child-Step c child queue prev waiting none inside s known includes e =
      let less = budget-insert nodes child c prev inside e in
      elim (Bool-cases (child == target)) [
        | inl same ↦ rw same (record {
          search =
              put_target c child queue prev waiting s known includes e
                ((nat_beq_iff child target).0 same);
          grows = insert-Grows child c prev e;
          spent = omega (arith, less);
        })
        | inr other ↦ rw other (record {
          search =
              put_other c child queue prev waiting s known includes e
                (ground (arith, other, nat_beq_iff child target));
          grows = insert-Grows child c prev e;
          spent = omega (arith, less, length-append waiting (child ∷ []));
        })
      ]

  -- A child is known behind its step.
  put_child-Known :
      (c child : ℕ) (l : Levels) (o : Option ℕ)
      → lookup child l.prev ≡ o
      → Known (put_child o c target child l).prev child
  unfolding put_child
  put_child-Known c child l (some p) e = (p, e)
  put_child-Known c child l none e = elim (Bool-cases (child == target)) [
    | inl same ↦ rw same (c, lookup_new child c l.prev)
    | inr other ↦ rw other (c, lookup_new child c l.prev)
  ]

  -- The loop over the children went on to the end, or found the target.
  record Visited (c : ℕ) (ids queue : List ℕ) (l m : Levels) : Type 0 where
    step : Step c queue l m
    all : m.found ≡ false → (n : ℕ) → contains (map path_of ids) n ≡ true → Known m.prev n

  shut :
      (queue : List ℕ) (m : Levels)
      → m.found ≡ false
      → Search queue m
      → Search queue (record { prev = m.prev; next_queue = m.next_queue; found = false })
  shut queue m e s =
      subst (λ b. Search queue (record { prev = m.prev; next_queue = m.next_queue; found = b })) e s

  open_rest :
      (c : ℕ) (ids queue : List ℕ) (m : Levels)
      → m.found ≡ false
      → Visited c ids queue
          (record { prev = m.prev; next_queue = m.next_queue; found = false })
          (visit_children c target ids
            (record { prev = m.prev; next_queue = m.next_queue; found = false }))
      → Visited c ids queue m (visit_children c target ids m)
  open_rest c ids queue m e v =
      subst
        (λ b.
          Visited c ids queue (record { prev = m.prev; next_queue = m.next_queue; found = b })
            (visit_children c target ids
              (record { prev = m.prev; next_queue = m.next_queue; found = b })))
        (sym e) v

  then_Grows : (a b c : Table ℕ ℕ) → Grows a b → Grows b c → Grows a c
  unfolding Grows
  then_Grows a b c f g n p h = g n p (f n p h)

  Visited-after :
      (c id : ℕ) (ids queue : List ℕ) (l m : Levels)
      → Step c queue l m
      → Known m.prev (path_of id)
      → Visited c ids queue m (visit_children c target ids m)
      → Visited c (id ∷ ids) queue l (visit_children c target ids m)
  Visited-after c id ids queue l m first there v =
      let r = visit_children c target ids m in
      record {
        step = record {
          search = v.step.search;
          grows = then_Grows l.prev m.prev r.prev first.grows v.step.grows;
          spent = omega (arith, first.spent, v.step.spent);
        };
        all = λ f n h. elim (contains_cases (path_of id) (map path_of ids) n h) [
          | inl e ↦
              subst (λ x. Known r.prev x) e
                (Known-Grows m.prev r.prev (path_of id) v.step.grows there)
          | inr rest ↦ v.all f n rest
        ];
      }

  visit_children-Visited :
      (c : ℕ) (ids queue : List ℕ) (prev : Table ℕ ℕ) (waiting : List ℕ)
      → ((n : ℕ) → contains (map path_of ids) n ≡ true → contains nodes n ≡ true)
      → ((n : ℕ) → contains (map path_of ids) n ≡ true → IncludesFile g c n)
      → Search (c ∷ queue) (record { prev = prev; next_queue = waiting; found = false })
      → Known prev c
      → Visited c ids queue
          (record { prev = prev; next_queue = waiting; found = false })
          (visit_children c target ids
            (record { prev = prev; next_queue = waiting; found = false }))
  unfolding visit_children contains
  visit_children-Visited c [] queue prev waiting inside includes s known = record {
    step = record { search = s; grows = same_Grows prev; spent = omega arith };
    all = λ _ n h. absurd (false≢true h);
  }
  visit_children-Visited c (id ∷ ids) queue prev waiting inside includes s known =
      let l : Levels = record { prev = prev; next_queue = waiting; found = false } in
      let child = path_of id in
      let m = put_child (lookup child prev) c target child l in
      let first =
        put_child-Step c child queue prev waiting (lookup child prev)
          (inside child (contains_head child (map path_of ids))) s known
          (includes child (contains_head child (map path_of ids))) refl in
      let there = put_child-Known c child l (lookup child prev) refl in
      chosen (λ r. Visited c (id ∷ ids) queue l r) m.found m (visit_children c target ids m)
        (λ e. record { step = first; all = λ h. absurd (true≢false (sym e ∙ h)) })
        (λ e. Visited-after c id ids queue l m first there (
          open_rest c ids queue m e (
            visit_children-Visited c ids queue m.prev m.next_queue
              (λ n h. inside n (contains_tail child (map path_of ids) n h))
              (λ n h. includes n (contains_tail child (map path_of ids) n h))
              (shut (c ∷ queue) m e first.search) (Known-Grows prev m.prev c first.grows known))))

  -- Behind the children of a file, the file is settled.
  leave :
      (c : ℕ) (queue : List ℕ) (m : Levels)
      → Search (c ∷ queue) m
      → (m.found ≡ false → Closed m.prev c)
      → Search queue m
  leave c queue m s closed = record {
    traced = s.traced;
    from_host = s.from_host;
    at_target = s.at_target;
    not_yet = s.not_yet;
    known_next = s.known_next;
    settled = λ f n k. elim (s.settled f n k) [
      | inl q ↦ elim q [
        | inl w ↦ elim (contains_cases c queue n w) [
          | inl e ↦ inr (subst (λ x. Closed m.prev x) e (closed f))
          | inr rest ↦ inl (inl rest)
        ]
        | inr w ↦ inl (inr w)
      ]
      | inr d ↦ inr d
    ];
  }

  -- A level that was walked, to its end or to the target.
  pub record Walked (l m : Levels) : Type 0 where
    pub search : Search [] m
    pub grows : Grows l.prev m.prev
    pub spent :
        budget one nodes (keys m.prev) + length m.next_queue
        ≤ budget one nodes (keys l.prev) + length l.next_queue

  -- Where the target is found, the queue no longer matters.
  drop_queue : (queue : List ℕ) (m : Levels) → m.found ≡ true → Search queue m → Search [] m
  drop_queue queue m e s = record {
    traced = s.traced;
    from_host = s.from_host;
    at_target = s.at_target;
    not_yet = s.not_yet;
    known_next = s.known_next;
    settled = λ f. absurd (true≢false (sym e ∙ f));
  }

  module _ (inside : (a b : ℕ) → IncludesFile g a b → contains nodes b ≡ true) where
    pub visit_level-Walked :
        (queue : List ℕ) (l : Levels)
        → l.found ≡ false
        → Search queue l
        → ((n : ℕ) → contains queue n ≡ true → Known l.prev n)
        → Walked l (visit_level g target queue l)
    unfolding visit_level Closed
    visit_level-Walked [] l f s known = record {
      search = s;
      grows = same_Grows l.prev;
      spent = omega arith;
    }
    visit_level-Walked (c ∷ queue) l f s known =
        let ids = get_all_includes c g in
        let m = visit_children c target ids l in
        let v = open_rest c ids queue l f (
          visit_children-Visited c ids queue l.prev l.next_queue (λ n h. inside c n h) (λ n h. h)
            (shut (c ∷ queue) l f s) (known c (contains_head c queue))) in
        chosen (λ r. Walked l r) m.found m (visit_level g target queue m)
          (λ e. record {
            search = drop_queue (c ∷ queue) m e v.step.search;
            grows = v.step.grows;
            spent = v.step.spent;
          })
          (λ e.
            let rest =
              visit_level-Walked queue m e (leave c queue m v.step.search (λ h n i. v.all h n i))
                (λ n h.
                  Known-Grows l.prev m.prev n v.step.grows (known n (contains_tail c queue n h))) in
            record {
              search = rest.search;
              grows =
                  then_Grows l.prev m.prev (visit_level g target queue m).prev v.step.grows
                    rest.grows;
              spent = omega (arith, v.step.spent, rest.spent);
            })
