-- ===== src/DependencyGraph/Chain.antt =====
-- src/syntax/dependency_graph.cpp: find_include_chain ends, with a chain of includes if there is one.
mod Level
use mathlib.Core.Bool.{false≢true, true≢false}
use mathlib.Core.Option
use clice.Base.{
  ℕ, zero, suc, ◌+◌, ◌≤◌, ◌<◌, ◌^◌, ◌≡◌, ◌≢◌, refl, sym, subst, ap, ◌∙◌, inl, inr, ◌⊎◌, Bool, true,
  false, ◌&&◌, ◌||◌, Option, none, some, List, [], ◌∷◌, ◌++◌, map, Table, keys, lookup, insert,
  contains, length, length-append, if◌then◌else◌, ◌==◌, nat_equality, nat_beq_iff, arith,
  contains-append, Bool-cases, eq_self, contains_cases, contains_head, contains_tail,
}
use clice.Worklist.{Reach, here, next, budget}
use clice.DependencyGraph.Hosts.Push.{one, budget_small}
use clice.DependencyGraph.{
  IncludeKey, same_key, key_equality, vector_of, get_includes, DependencyGraph, path_of,
  get_all_includes, Levels, visit_level, walk_levels, number_of, trace, reversed, chain_of,
  chain_after, all_included, find_include_chain,
}
use clice.DependencyGraph.Combined.Entry.{Words}
use clice.DependencyGraph.Combined.{all_of, get_all_includes-UnionOf}
use clice.DependencyGraph.Chain.Level.{
  IncludesFile, Known, Trail, Traced, Closed, Search, Grows, Walked, chosen, visit_level-Walked,
}

module _ (g : DependencyGraph) (host target : ℕ) where
  -- Files that include one another, from the host on.
  pub data IncludeChain : ℕ → List ℕ → Type 0 where
    single : IncludeChain host (host ∷ [])
    more :
        {a b : ℕ} {xs : List ℕ}
        → IncludeChain a xs
        → IncludesFile g a b
        → IncludeChain b (xs ++ (b ∷ []))

  -- A chain from the host to the target, or none because the host does not reach it.
  pub data ChainOrNone : List ℕ → Type 0 where
    chain : {xs : List ℕ} → IncludeChain target xs → ChainOrNone xs
    none_there : (Reach (IncludesFile g) host target → ⊥) → ChainOrNone []

  abbrev pub Answered : Option (List ℕ) → Type 0
  Answered none = ⊥
  Answered (some xs) = ChainOrNone xs

module _ (g : DependencyGraph) (host target : ℕ) (nodes : List ℕ)
    (inside : (a b : ℕ) → IncludesFile g a b → contains nodes b ≡ true) where
  -- A walk that ended, at the target or with nothing left to look at.
  record Over (l : Levels) : Type 0 where
    search : Search g host target nodes [] l
    nothing_left : l.found ≡ false → l.next_queue ≡ []

  abbrev Ended : Option Levels → Type 0
  Ended none = ⊥
  Ended (some l) = Over l

  -- The next queue becomes the queue.
  turn :
      (m : Levels)
      → m.found ≡ false
      → Search g host target nodes [] m
      → Search g host target nodes m.next_queue
          (record { prev = m.prev; next_queue = []; found = false })
  unfolding contains
  turn m f s = record {
    traced = s.traced;
    from_host = s.from_host;
    at_target = λ h. absurd (false≢true h);
    not_yet = λ _. s.not_yet f;
    known_next = λ n h. absurd (false≢true h);
    settled = λ _ n k. elim (s.settled f n k) [
      | inl q ↦ elim q [ inl w ↦ absurd (false≢true w) | inr w ↦ inl (inl w) ]
      | inr d ↦ inr d
    ];
  }

  walk_levels-Ended :
      (f : ℕ) (queue : List ℕ) (prev : Table ℕ ℕ)
      → Search g host target nodes queue (record { prev = prev; next_queue = []; found = false })
      → ((n : ℕ) → contains queue n ≡ true → Known g host target nodes prev n)
      → budget one nodes (keys prev) + length queue < f
      → Ended (walk_levels f g target queue prev)
  unfolding walk_levels
  walk_levels-Ended zero queue prev s known l = absurd (omega arith)
  walk_levels-Ended (suc f) [] prev s known l = record { search = s; nothing_left = λ _. refl }
  walk_levels-Ended (suc f) (c ∷ queue) prev s known l =
      let start : Levels = record { prev = prev; next_queue = []; found = false } in
      let m = visit_level g target (c ∷ queue) start in
      let walked = visit_level-Walked g host target nodes inside (c ∷ queue) start refl s known in
      chosen (λ r. Ended r) m.found (some m) (walk_levels f g target m.next_queue m.prev)
        (λ e. record {
          search = walked.search;
          nothing_left = λ h. absurd (true≢false (sym e ∙ h));
        })
        (λ e.
          walk_levels-Ended f m.next_queue m.prev (turn m e walked.search) walked.search.known_next
            (omega (arith, walked.spent, l)))

  trace-Trail :
      (f : ℕ) (prev : Table ℕ ℕ) (n : ℕ) (xs : List ℕ)
      → Trail g host target nodes prev n xs
      → length xs < f
      → trace f prev host n ≡ some xs
  unfolding trace number_of
  trace-Trail zero prev n xs t l = absurd (omega arith)
  trace-Trail (suc f) prev _ _ Trail.start l = ground (arith, eq_self host)
  trace-Trail (suc f) prev _ _ (Trail.back {n = n} {p = p} {xs = xs} o h i t) l =
      let other : (n == host) ≡ false = ground (arith, o, nat_beq_iff n host) in
      rw (other, h, trace-Trail f prev p xs t (omega (arith, l))) refl

  Trail-IncludeChain :
      (prev : Table ℕ ℕ) (n : ℕ) (xs : List ℕ)
      → Trail g host target nodes prev n xs
      → IncludeChain g host target n (reversed xs)
  unfolding reversed
  Trail-IncludeChain prev _ _ Trail.start = single
  Trail-IncludeChain prev _ _ (Trail.back {n = n} {p = p} {xs = xs} o h i t) =
      more (Trail-IncludeChain prev p xs t) i

  reached-Known :
      (l : Levels)
      → Over l
      → l.found ≡ false
      → (n : ℕ) → Reach (IncludesFile g) host n
      → Known g host target nodes l.prev n
  unfolding contains Closed
  reached-Known l o f _ here = o.search.from_host
  reached-Known l o f _ (next {a = a} {b = b} r i) =
      elim (o.search.settled f a (reached-Known l o f a r)) [
        | inl q ↦ elim q [
          | inl w ↦ absurd (false≢true w)
          | inr w ↦ absurd (false≢true (subst (λ q. contains q a ≡ true) (o.nothing_left f) w))
        ]
        | inr closed ↦ closed b i
      ]

  chain_of-Answered : (l : Levels) → Over l → Answered g host target (chain_of host target l)
  unfolding chain_of
  chain_of-Answered l o =
      chosen (λ r. Answered g host target r) l.found
        (Option.map reversed (trace (suc (length l.prev)) l.prev host target)) (some [])
        (λ e.
          let t = o.search.traced target (o.search.at_target e) in
          rw
            (trace-Trail (suc (length l.prev)) l.prev target t.files t.trail
              (omega (arith, t.short)))
            (chain (Trail-IncludeChain l.prev target t.files t.trail)))
        (λ e. none_there (λ r.
          let (p, h) = reached-Known l o e target r in
          absurd (ground (arith, h, o.search.not_yet e))))

  chain_after-Answered :
      (r : Option Levels) → Ended r → Answered g host target (chain_after host target r)
  unfolding chain_after
  chain_after-Answered none h = h
  chain_after-Answered (some l) h = chain_of-Answered l h

  only_host : (n : ℕ) → Known g host target nodes (insert host host []) n → host ≡ n
  unfolding insert lookup
  only_host n (p, h) = ground (arith, h, nat_beq_iff host n)

  start-Search :
      host ≢ target
      → Search g host target nodes
          (host ∷ [])
          (record { prev = insert host host []; next_queue = []; found = false })
  unfolding insert lookup contains
  start-Search other = record {
    traced = λ n k.
        subst (λ x. Traced g host target nodes (insert host host []) x) (only_host n k)
          (record { files = host ∷ []; trail = Trail.start; short = omega arith });
    from_host = (host, ground (arith, eq_self host));
    at_target = λ h. absurd (false≢true h);
    not_yet = λ _. ground (arith, other, nat_beq_iff host target);
    known_next = λ n h. absurd (false≢true h);
    settled = λ _ n k. inl (inl (ground (arith, only_host n k, nat_beq_iff host n)));
  }

  start-Known :
      host ≢ target
      → (n : ℕ) → contains (host ∷ []) n ≡ true
      → Known g host target nodes (insert host host []) n
  unfolding contains
  start-Known other n q =
      let s = start-Search other in
      elim (contains_cases host [] n q) [
        | inl e ↦ subst (λ x. Known g host target nodes (insert host host []) x) e s.from_host
        | inr h ↦ absurd (false≢true h)
      ]

contains-map :
    (xs : List ℕ) (b : ℕ)
    → contains (map path_of xs) b ≡ true
    → (x : ℕ) × (contains xs x ≡ true) × (path_of x ≡ b)
unfolding contains
contains-map [] b h = absurd (false≢true h)
contains-map (y ∷ xs) b h = elim (Bool-cases (path_of y == b)) [
  | inl e ↦ (y, contains_head y xs, (nat_beq_iff (path_of y) b).0 e)
  | inr e ↦
      let (x, inside, same) = contains-map xs b (ground (arith, h, e)) in
      (x, contains_tail y xs x inside, same)
]

in_table :
    (t : Table IncludeKey (List ℕ)) (k : IncludeKey) (b : ℕ)
    → contains (map path_of (vector_of (lookup k t))) b ≡ true
    → contains (all_included t) b ≡ true
unfolding lookup vector_of all_included contains
in_table [] k b h = h
in_table ((j, ids) ∷ t) k b h = elim (Bool-cases (same_key j k)) [
  | inl e ↦ ground (arith, e, h, contains-append (map path_of ids) (all_included t) b)
  | inr e ↦ ground (arith, e, in_table t k b, contains-append (map path_of ids) (all_included t) b)
]

map-append : (xs ys : List ℕ) → map path_of (xs ++ ys) ≡ map path_of xs ++ map path_of ys
map-append [] ys = refl
map-append (x ∷ xs) ys = ap (λ r. path_of x ∷ r) (map-append xs ys)

in_includes :
    (path c : ℕ) (g : DependencyGraph) (b : ℕ)
    → contains (map path_of (get_includes path c g)) b ≡ true
    → contains (all_included g.includes) b ≡ true
unfolding get_includes
in_includes path c g b h = in_table g.includes (record { path_id = path; config_id = c }) b h

in_configs :
    (path : ℕ) (configs : List ℕ) (g : DependencyGraph) (b : ℕ)
    → contains (map path_of (all_of path configs g)) b ≡ true
    → contains (all_included g.includes) b ≡ true
unfolding all_of contains
in_configs path [] g b h = absurd (false≢true h)
in_configs path (c ∷ cs) g b h =
    let here = get_includes path c g in
    let rest = all_of path cs g in
    let split : contains (map path_of here ++ map path_of rest) b ≡ true =
      subst (λ xs. contains xs b ≡ true) (map-append here rest) h in
    elim (Bool-cases (contains (map path_of here) b)) [
      | inl e ↦ in_includes path c g b e
      | inr e ↦
          in_configs path cs g b
            (ground (arith, split, e, contains-append (map path_of here) (map path_of rest) b))
    ]

-- What a file includes is known to the graph.
includes_known :
    (g : DependencyGraph)
    → ((path c : ℕ) → Words (get_includes path c g))
    → (a b : ℕ) → IncludesFile g a b
    → contains (all_included g.includes) b ≡ true
includes_known g words a b h =
    let configs = vector_of (lookup a g.file_configs) in
    let union = get_all_includes-UnionOf a g (words a) in
    let (x, inside, same) = contains-map (get_all_includes a g) b h in
    let there = ((union.entries x).0 inside).0 in
    in_configs a configs g b
      (subst (λ r. contains (map path_of (all_of a configs g)) r ≡ true) same there)

-- Where the included paths are 32-bit numbers, find_include_chain ends within its fuel, and answers
-- files from the host to the target each of which includes the next one in some configuration, or the
-- empty chain where the host does not reach the target over includes.
pub find_include_chain-Answered :
    (g : DependencyGraph) (host target : ℕ)
    → ((path c : ℕ) → Words (get_includes path c g))
    → Answered g host target (find_include_chain host target g)
unfolding find_include_chain
find_include_chain-Answered g host target words =
    let nodes = all_included g.includes in
    let inside = includes_known g words in
    chosen (λ r. Answered g host target r) (host == target) (some (host ∷ []))
      (chain_after host target
        (walk_levels (suc (suc (length nodes))) g target (host ∷ []) (insert host host [])))
      (λ e. chain (
        subst (λ x. IncludeChain g host target x (host ∷ [])) ((nat_beq_iff host target).0 e)
          single))
      (λ e.
        let other : host ≢ target = ground (arith, e, nat_beq_iff host target) in
        let s = start-Search g host target nodes inside other in
        chain_after-Answered g host target nodes inside
          (walk_levels (suc (suc (length nodes))) g target (host ∷ []) (insert host host []))
          (walk_levels-Ended g host target nodes inside (suc (suc (length nodes))) (host ∷ [])
            (insert host host []) s (λ n q. start-Known g host target nodes inside other n q)
            (omega (arith, budget_small nodes (keys (insert host host []))))))
