-- ===== src/DependencyGraph/Reverse.antt =====
-- src/syntax/dependency_graph.cpp: the reverse map mirrors the includes.
use mathlib.Core.Bool.{false≢true}
use clice.Base.{
  ℕ, ◌≡◌, ◌↔◌, subst, inl, inr, Bool, true, false, ◌&&◌, ◌||◌, none, some, List, [], ◌∷◌, map,
  Table, lookup, insert, contains, if◌then◌else◌, ◌==◌, nat_equality, nat_beq_iff, arith,
  contains-append, lookup-insert, NodupKeys, Bool-cases, eq_self,
}
use clice.DependencyGraph.{
  IncludeKey, same_key, same_key_iff, key_equality, DependencyGraph, path_of, vector_of, add_new,
  get_includes, get_includers, add_reverse, reverse_all, build_reverse_map,
}

pub contains-add_new :
    (x : ℕ) (v : List ℕ) (a : ℕ) → contains (add_new x v) a ≡ (contains v a || x == a)
unfolding add_new contains
contains-add_new x v a = elim (Bool-cases (contains v x)) [
  | inl e ↦ ground (arith, e, nat_beq_iff x a)
  | inr e ↦ rw e (ground (arith, contains-append v (x ∷ []) a))
]

-- Some entry of the path includes the file.
edge : Table IncludeKey (List ℕ) → ℕ → ℕ → Bool
edge [] q f = false
edge ((k, ids) ∷ m) q f = (k.path_id == q && contains (map path_of ids) f) || edge m q f

-- One `push_back` of the loop.
put_includer :
    (r p : ℕ) (m : Table ℕ (List ℕ)) (f q : ℕ)
    → contains (vector_of (lookup f (insert r (add_new p (vector_of (lookup r m))) m))) q
      ≡ (contains (vector_of (lookup f m)) q || (p == q && r == f))
unfolding vector_of
put_includer r p m f q = elim (Bool-cases (r == f)) [
  | inl e ↦
      rw
        (lookup-insert r f (add_new p (vector_of (lookup r m))) m, (nat_beq_iff r f).0 e, eq_self f)
        (ground (arith, contains-add_new p (vector_of (lookup f m)) q))
  | inr e ↦ rw (lookup-insert r f (add_new p (vector_of (lookup r m))) m, e) (ground arith)
]

add_reverse-contains :
    (p : ℕ) (ids : List ℕ) (m : Table ℕ (List ℕ)) (f q : ℕ)
    → contains (vector_of (lookup f (add_reverse p ids m))) q
      ≡ (contains (vector_of (lookup f m)) q || (p == q && contains (map path_of ids) f))
unfolding add_reverse contains
add_reverse-contains p [] m f q = ground arith
add_reverse-contains p (id ∷ ids) m f q =
    let new = insert (path_of id) (add_new p (vector_of (lookup (path_of id) m))) m in
    ground (arith, add_reverse-contains p ids new f q, put_includer (path_of id) p m f q)

reverse_all-contains :
    (t : Table IncludeKey (List ℕ)) (m : Table ℕ (List ℕ)) (f q : ℕ)
    → contains (vector_of (lookup f (reverse_all t m))) q
      ≡ (contains (vector_of (lookup f m)) q || edge t q f)
unfolding reverse_all edge
reverse_all-contains [] m f q = ground arith
reverse_all-contains ((k, ids) ∷ t) m f q = ground (
  arith,
  reverse_all-contains t (add_reverse k.path_id ids m) f q,
  add_reverse-contains k.path_id ids m f q,
)

no_entry :
    (k key : IncludeKey) (t : Table IncludeKey (List ℕ)) (f : ℕ)
    → lookup k t ≡ none
    → contains (map path_of (vector_of (lookup key t))) f ≡ true
    → same_key k key ≡ false
unfolding vector_of contains
no_entry k key t f absent h = elim (Bool-cases (same_key k key)) [
  | inl e ↦
      let missing : lookup key t ≡ none =
        subst (λ j. lookup j t ≡ none) ((same_key_iff k key).0 e) absent in
      absurd (false≢true (subst (λ o. contains (map path_of (vector_of o)) f ≡ true) missing h))
  | inr e ↦ e
]

own_key :
    (q : ℕ) (k : IncludeKey) (b : Bool)
    → (k.path_id == q && b) ≡ true
    → same_key k (record { path_id = q; config_id = k.config_id }) ≡ true
unfolding same_key
own_key q k b h = ground (arith, h, nat_beq_iff k.config_id k.config_id)

edge_sound :
    (t : Table IncludeKey (List ℕ)) (q f : ℕ)
    → NodupKeys t
    → edge t q f ≡ true
    → (c : ℕ) × (contains
          (map path_of (vector_of (lookup (record { path_id = q; config_id = c }) t)))
          f
        ≡ true)
unfolding edge lookup vector_of
edge_sound [] q f nd h = absurd (ground (arith, h))
edge_sound ((k, ids) ∷ t) q f nd h =
    elim (Bool-cases (k.path_id == q && contains (map path_of ids) f)) [
      | inl e ↦ (k.config_id, rw (own_key q k _ e) (ground (arith, e)))
      | inr e ↦
          let (c, found) = edge_sound t q f nd.1 (ground (arith, h, e)) in
          let key : IncludeKey = record { path_id = q; config_id = c } in
          (c, rw (no_entry k key t f nd.0 found) found)
    ]

edge_complete :
    (t : Table IncludeKey (List ℕ)) (q c f : ℕ)
    → contains (map path_of (vector_of (lookup (record { path_id = q; config_id = c }) t))) f ≡ true
    → edge t q f ≡ true
unfolding edge lookup vector_of contains
edge_complete [] q c f h = h
edge_complete ((k, ids) ∷ t) q c f h =
    elim (Bool-cases (same_key k (record { path_id = q; config_id = c }))) [
      | inl e ↦
          let got : contains (map path_of ids) f ≡ true =
            subst
              (λ b.
                contains
                  (map path_of (
                    vector_of
                      (if b then some ids else lookup (record { path_id = q; config_id = c }) t)))
                  f
                ≡ true)
              e h in
          ground (arith, got, (same_key_iff k (record { path_id = q; config_id = c })).0 e)
      | inr e ↦
          let got : contains
                (map path_of (vector_of (lookup (record { path_id = q; config_id = c }) t))) f
              ≡ true =
            subst
              (λ b.
                contains
                  (map path_of (
                    vector_of
                      (if b then some ids else lookup (record { path_id = q; config_id = c }) t)))
                  f
                ≡ true)
              e h in
          ground (arith, edge_complete t q c f got)
    ]

reverse_edge :
    (t : Table IncludeKey (List ℕ)) (file path : ℕ)
    → contains (vector_of (lookup file (reverse_all t []))) path ≡ edge t path file
unfolding lookup vector_of contains
reverse_edge t file path = ground (arith, reverse_all-contains t [] file path)

-- A configuration of the path includes the file.
abbrev pub Includes : DependencyGraph → ℕ → ℕ → Type 0
Includes g path file = (c : ℕ) × (contains (map path_of (get_includes path c g)) file ≡ true)

-- Where the includes have one entry for a key, the includers that get_includers answers once the reverse
-- map was built are exactly the paths that include the file in some configuration, whether
-- conditionally or not.
pub build_reverse_map-Includes :
    (g : DependencyGraph) (file path : ℕ)
    → NodupKeys g.includes
    → (contains (get_includers file (build_reverse_map g)) path ≡ true) ↔ Includes g path file
unfolding get_includers build_reverse_map get_includes
build_reverse_map-Includes g file path nd =
    let told = reverse_edge g.includes file path in
    (
      λ h. edge_sound g.includes path file nd (ground (arith, h, told)),
      λ i. ground (arith, edge_complete g.includes path i.0 file i.1, told),
    )
