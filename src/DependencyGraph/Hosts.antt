-- ===== src/DependencyGraph/Hosts.antt =====
-- src/syntax/dependency_graph.cpp: find_host_sources ends, with the roots that include the header.
pub mod Push
use mathlib.Core.Bool.{false≢true}
use clice.Base.{
  ℕ, zero, suc, ◌+◌, ◌≤◌, ◌<◌, ◌≡◌, ◌≢◌, ◌↔◌, refl, sym, subst, ap, ◌∙◌, inl, inr, ◌⊎◌, Bool, true,
  false, not, ◌&&◌, ◌||◌, Option, none, some, List, [], ◌∷◌, ◌++◌, map, Table, lookup, contains,
  count, count-append, length, length-append, if◌then◌else◌, ◌==◌, nat_equality, nat_beq_iff, arith,
  contains-append, Bool-cases, eq_self, contains_cases, contains_last_cases, contains_head,
  contains_tail, count_absent,
}
use clice.Worklist.{Reach, here, next, budget, budget-visit}
use clice.DependencyGraph.{
  DependencyGraph, vector_of, get_includers, Search, push_one, push_new, visit, search,
  all_includers, find_host_sources,
}
use clice.DependencyGraph.Hosts.Push.{
  one, Pushed, push_one-Pushed, push_new-Pushed, push_one-budget, push_new-budget, cons≢nil,
  list_cases, known_in_table, budget_small,
}

module _ (g : DependencyGraph) (header : ℕ) where
  -- `IncludedBy a b`: `b` includes `a`.
  abbrev pub IncludedBy : ℕ → ℕ → Type 0
  IncludedBy a b = contains (get_includers a g) b ≡ true

  -- A file that nothing includes, and that includes the header over some files.
  pub record Host (n : ℕ) : Type 0 where
    pub includes : Reach IncludedBy header n
    pub root : get_includers n g ≡ []
    pub other : n ≢ header

  -- What holds of a visited file that is no longer in the queue.
  record Done (s : Search) (n : ℕ) : Type 0 where
    closed : (m : ℕ) → IncludedBy n m → contains s.visited m ≡ true
    reported : get_includers n g ≡ [] → n ≢ header → contains s.result n ≡ true

  record Walk (s : Search) : Type 0 where
    reaches : (n : ℕ) → contains s.visited n ≡ true → Reach IncludedBy header n
    waiting : (n : ℕ) → contains s.queue n ≡ true → contains s.visited n ≡ true
    hosts : (n : ℕ) → contains s.result n ≡ true → Host n
    done : (n : ℕ) → contains s.visited n ≡ true → (contains s.queue n ≡ true) ⊎ Done s n
    once : (n : ℕ) → count n s.queue + count n s.result ≤ 1
    seen : (n : ℕ) → contains s.visited n ≡ false → count n s.queue + count n s.result ≡ 0
    start : contains s.visited header ≡ true

  -- The answer: the hosts, each once.
  pub record Hosts (result : List ℕ) : Type 0 where
    pub sound : (n : ℕ) → contains result n ≡ true → Host n
    pub complete : (n : ℕ) → Host n → contains result n ≡ true
    pub each_once : (n : ℕ) → count n result ≤ 1

  abbrev pub Answered : Option (List ℕ) → Type 0
  Answered none = ⊥
  Answered (some result) = Hosts result

  abbrev state : List ℕ → List ℕ → List ℕ → Search
  state queue visited result = record { queue = queue; visited = visited; result = result }

  Walk-closed :
      (visited result : List ℕ)
      → Walk (state [] visited result)
      → (n : ℕ) → Reach IncludedBy header n
      → contains visited n ≡ true
  unfolding contains
  Walk-closed visited result w _ here = w.start
  Walk-closed visited result w _ (next {a = a} {b = b} r h) =
      let before = Walk-closed visited result w a r in
      elim (w.done a before) [ inl q ↦ absurd (false≢true q) | inr d ↦ d.closed b h ]

  Walk-Hosts : (visited result : List ℕ) → Walk (state [] visited result) → Hosts result
  unfolding contains
  Walk-Hosts visited result w = record {
    sound = w.hosts;
    complete = λ n host. elim (w.done n (Walk-closed visited result w n host.includes)) [
      | inl q ↦ absurd (false≢true q)
      | inr d ↦ d.reported host.root host.other
    ];
    each_once = λ n. omega (arith, w.once n);
  }

  -- A later state has seen, reported and queued what the earlier one has, but for the file that it visits.
  record Later (queue : List ℕ) (s t : Search) : Type 0 where
    keeps_queue : (n : ℕ) → contains queue n ≡ true → contains t.queue n ≡ true
    keeps_visited : (n : ℕ) → contains s.visited n ≡ true → contains t.visited n ≡ true
    keeps_result : (n : ℕ) → contains s.result n ≡ true → contains t.result n ≡ true

  settle :
      (c : ℕ) (queue visited result : List ℕ) (t : Search)
      → Walk (state (c ∷ queue) visited result)
      → Later queue (state (c ∷ queue) visited result) t
      → Done t c
      → (n : ℕ) → contains visited n ≡ true
      → (contains t.queue n ≡ true) ⊎ Done t n
  settle c queue visited result t w l settled n h = elim (w.done n h) [
    | inl q ↦ elim (contains_cases c queue n q) [
      | inl e ↦ inr (subst (λ x. Done t x) e settled)
      | inr q' ↦ inl (l.keeps_queue n q')
    ]
    | inr d ↦ inr (record {
      closed = λ m i. l.keeps_visited m (d.closed m i);
      reported = λ r o. l.keeps_result n (d.reported r o);
    })
  ]

  no_includers : (c m : ℕ) → get_includers c g ≡ [] → IncludedBy c m → ⊥
  unfolding contains
  no_includers c m root h = false≢true (subst (λ xs. contains xs m ≡ true) root h)

  -- The header itself is not reported.
  visit-header :
      (c : ℕ) (queue visited result : List ℕ)
      → Walk (state (c ∷ queue) visited result)
      → get_includers c g ≡ []
      → c ≡ header
      → Walk (state queue visited result)
  unfolding contains count
  visit-header c queue visited result w root same = record {
    reaches = w.reaches;
    waiting = λ n q. w.waiting n (contains_tail c queue n q);
    hosts = w.hosts;
    done =
        settle c queue visited result (state queue visited result) w
          (record { keeps_queue = λ n h. h; keeps_visited = λ n h. h; keeps_result = λ n h. h })
          (record {
            closed = λ m h. absurd (no_includers c m root h);
            reported = λ _ o. absurd (o same);
          });
    once = λ n. ground (arith, w.once n);
    seen = λ n h. ground (arith, w.seen n h);
    start = w.start;
  }

  visit-host :
      (c : ℕ) (queue visited result : List ℕ)
      → Walk (state (c ∷ queue) visited result)
      → get_includers c g ≡ []
      → c ≢ header
      → Walk (state queue visited (result ++ (c ∷ [])))
  unfolding contains count
  visit-host c queue visited result w root other = record {
    reaches = w.reaches;
    waiting = λ n q. w.waiting n (contains_tail c queue n q);
    hosts = λ n h. elim (contains_last_cases c result n h) [
      | inl e ↦
          subst (λ x. Host x) e
            (record {
              includes = w.reaches c (w.waiting c (contains_head c queue));
              root = root;
              other = other;
            })
      | inr old ↦ w.hosts n old
    ];
    done =
        settle c queue visited result (state queue visited (result ++ (c ∷ []))) w
          (record {
            keeps_queue = λ n h. h;
            keeps_visited = λ n h. h;
            keeps_result = λ n h. ground (arith, h, contains-append result (c ∷ []) n);
          })
          (record {
            closed = λ m h. absurd (no_includers c m root h);
            reported = λ _ _. ground (arith, contains-append result (c ∷ []) c, eq_self c);
          });
    once = λ n. ground (arith, w.once n, count-append n result (c ∷ []));
    seen = λ n h. ground (arith, w.seen n h, count-append n result (c ∷ []));
    start = w.start;
  }

  contains_of_count : (xs : List ℕ) (n : ℕ) → 1 ≤ count n xs → contains xs n ≡ true
  contains_of_count xs n h = elim (Bool-cases (contains xs n)) [
    | inl e ↦ e
    | inr e ↦ absurd (omega (arith, h, count_absent n xs e))
  ]

  count_of_contains : (xs : List ℕ) (n : ℕ) → contains xs n ≡ true → 1 ≤ count n xs
  unfolding contains count
  count_of_contains [] n h = ground arith
  count_of_contains (x ∷ xs) n h = ground (arith, count_of_contains xs n)

  or_cases : (a b : Bool) → (a || b) ≡ true → (a ≡ true) ⊎ (b ≡ true)
  or_cases a b h = ground (arith, h)

  visit-includers :
      (c d : ℕ) (ds queue visited result : List ℕ)
      → Walk (state (c ∷ queue) visited result)
      → get_includers c g ≡ d ∷ ds
      → Walk (push_new (d ∷ ds) (state queue visited result))
  unfolding count
  visit-includers c d ds queue visited result w found =
      let s = state queue visited result in
      let t = push_new (d ∷ ds) s in
      let p = push_new-Pushed (d ∷ ds) s in
      let reach_c = w.reaches c (w.waiting c (contains_head c queue)) in
      let same : (n : ℕ) → count n t.result ≡ count n result =
        λ n. ap (λ r. count n r) p.same_result in
      let later : Later queue (state (c ∷ queue) visited result) t = record {
        keeps_queue = λ n h.
            contains_of_count t.queue n (ground (arith, p.queues n, count_of_contains queue n h));
        keeps_visited = λ n h. ground (arith, h, p.visits n);
        keeps_result = λ n h. subst (λ r. contains r n ≡ true) (sym p.same_result) h;
      } in
      let settled : Done t c = record {
        closed = λ m h. ground (arith, p.visits m, subst (λ xs. contains xs m ≡ true) found h);
        reported = λ r _. absurd (cons≢nil (sym found ∙ r));
      } in
      record {
        reaches = λ n h.
            elim (or_cases (contains visited n) (contains (d ∷ ds) n) (sym (p.visits n) ∙ h)) [
              | inl old ↦ w.reaches n old
              | inr new ↦ next reach_c (subst (λ xs. contains xs n ≡ true) (sym found) new)
            ];
        waiting = λ n q. elim (Bool-cases (contains queue n)) [
          | inl e ↦ ground (arith, p.visits n, w.waiting n (contains_tail c queue n e))
          | inr e ↦
              ground (
                arith,
                p.queues n,
                p.visits n,
                count_of_contains t.queue n q,
                count_absent n queue e,
              )
        ];
        hosts = λ n h. w.hosts n (subst (λ r. contains r n ≡ true) p.same_result h);
        done = λ n h. elim (Bool-cases (contains visited n)) [
          | inl old ↦ settle c queue visited result t w later settled n old
          | inr new ↦
              inl (contains_of_count t.queue n (ground (arith, h, new, p.visits n, p.queues n)))
        ];
        once = λ n. elim (Bool-cases (contains visited n)) [
          | inl e ↦ ground (arith, e, p.queues n, w.once n, same n)
          | inr e ↦ ground (arith, e, p.queues n, w.seen n e, same n)
        ];
        seen = λ n h. elim (Bool-cases (contains visited n)) [
          | inl e ↦ absurd (ground (arith, e, h, p.visits n))
          | inr e ↦ ground (arith, e, h, p.visits n, p.queues n, w.seen n e, same n)
        ];
        start = ground (arith, p.visits header, w.start);
      }

  known_includers :
      (c n : ℕ) → IncludedBy c n → contains (all_includers g.reverse_includes) n ≡ true
  unfolding get_includers
  known_includers c n h = known_in_table g.reverse_includes c n h

  search-Hosts :
      (f : ℕ) (queue visited result : List ℕ)
      → Walk (state queue visited result)
      → budget one (all_includers g.reverse_includes) visited + length queue < f
      → Answered (search f header g (state queue visited result))
  unfolding search visit
  search-Hosts zero queue visited result w l = absurd (omega arith)
  search-Hosts (suc f) [] visited result w l = Walk-Hosts visited result w
  search-Hosts (suc f) (c ∷ queue) visited result w l = elim (list_cases (get_includers c g)) [
    | inl root ↦ rw root (elim (Bool-cases (c == header)) [
      | inl e ↦ rw e (
          search-Hosts f queue visited result
            (visit-header c queue visited result w root ((nat_beq_iff c header).0 e))
            (omega (arith, l)))
      | inr e ↦ rw e (
          search-Hosts f queue visited (result ++ (c ∷ []))
            (visit-host c queue visited result w root (ground (arith, e, nat_beq_iff c header)))
            (omega (arith, l)))
    ])
    | inr (d, ds, found) ↦
        let t = push_new (d ∷ ds) (state queue visited result) in
        let spent =
          push_new-budget (all_includers g.reverse_includes) (d ∷ ds) (state queue visited result)
            (λ n h. known_includers c n (subst (λ xs. contains xs n ≡ true) (sym found) h)) in
        rw found (
          search-Hosts f t.queue t.visited t.result
            (visit-includers c d ds queue visited result w found) (omega (arith, l, spent)))
  ]

  start-Walk : Walk (state (header ∷ []) (header ∷ []) [])
  unfolding contains count
  start-Walk = record {
    reaches = λ n h. elim (contains_cases header [] n h) [
      | inl e ↦ subst (λ x. Reach IncludedBy header x) e here
      | inr q ↦ absurd (false≢true q)
    ];
    waiting = λ n h. h;
    hosts = λ n h. absurd (false≢true h);
    done = λ n h. inl h;
    once = λ n. ground arith;
    seen = λ n h. ground arith;
    start = contains_head header [];
  }

-- find_host_sources ends within its fuel, and answers the files that nothing includes and that include
-- the header over some files, the header itself excepted, each once.
pub find_host_sources-Hosts :
    (header : ℕ) (g : DependencyGraph) → Answered g header (find_host_sources header g)
unfolding find_host_sources
find_host_sources-Hosts header g =
    search-Hosts g header (suc (suc (length (all_includers g.reverse_includes)))) (header ∷ [])
      (header ∷ []) [] (start-Walk g header)
      (omega (arith, budget_small (all_includers g.reverse_includes) (header ∷ [])))
