-- ===== src/DependencyGraph/Combined.antt =====
-- src/syntax/dependency_graph.cpp: get_all_includes is the union over the configurations.
pub mod Flags
pub mod Entry
use mathlib.Core.Bool.{false≢true}
use mathlib.Core.List.{append_assoc, append-nil}
use clice.Base.{
  ℕ, zero, suc, ◌+◌, ◌%◌, ◌^◌, ◌≤◌, ◌<◌, ◌≡◌, ◌≢◌, ◌↔◌, refl, sym, subst, ap, ◌∙◌, inl, inr, ◌⊎◌,
  Bool, true, false, not, ◌&&◌, ◌||◌, Option, none, some, List, [], ◌∷◌, ◌++◌, map, Table, lookup,
  insert, lookup-insert, contains, length, length-append, if◌then◌else◌, ltb, ◌==◌, nat_equality,
  nat_beq_iff, arith, contains-append, Bool-cases, Option-cases, eq_self, All,
}
use clice.DependencyGraph.{
  DependencyGraph, path_of, is_conditional, vector_of, get_includes, Union, set_at, put_include,
  add_include, add_includes, add_configs, get_all_includes,
}
use clice.DependencyGraph.Combined.Flags.{
  entry_at, entry_at-last, entry_at-set_at, entry_at-length, length-set_at, unconditional, mark,
  includes_file, unconditional-last, unconditional_included, path_of-mark, id-flag,
}
use clice.DependencyGraph.Combined.Entry.{
  Combines, mark_first, mark_other, mark_conditional, mark_unconditional, add_new_include,
  add_known_include, same_index, path_of-path_of, add_unconditional_include, put_include-Combines,
  add_include-Combines, Words,
}

add_includes-Combines :
    (ids more : List ℕ) (u : Union)
    → Words more
    → Combines ids u
    → Combines (ids ++ more) (add_includes more u)
unfolding add_includes
add_includes-Combines ids [] u ws c = subst (λ r. Combines r u) (sym (append-nil ids)) c
add_includes-Combines ids (id ∷ more) u ws c =
    subst (λ r. Combines r (add_includes more (add_include id u))) (append_assoc ids (id ∷ []) more)
      (add_includes-Combines (ids ++ (id ∷ [])) more (add_include id u) ws.1
        (add_include-Combines ids id u ws.0 c))

-- The includes of a path in each of these configurations.
unfoldable pub all_of : ℕ → List ℕ → DependencyGraph → List ℕ
all_of path [] g = []
all_of path (c ∷ cs) g = get_includes path c g ++ all_of path cs g

add_configs-Combines :
    (path : ℕ) (configs : List ℕ) (g : DependencyGraph) (ids : List ℕ) (u : Union)
    → ((c : ℕ) → Words (get_includes path c g))
    → Combines ids u
    → Combines (ids ++ all_of path configs g) (add_configs path configs g u)
unfolding add_configs all_of
add_configs-Combines path [] g ids u ws c = subst (λ r. Combines r u) (sym (append-nil ids)) c
add_configs-Combines path (k ∷ ks) g ids u ws c =
    let here = get_includes path k g in
    subst (λ r. Combines r (add_configs path ks g (add_includes here u)))
      (append_assoc ids here (all_of path ks g))
      (add_configs-Combines path ks g (ids ++ here) (add_includes here u) ws
        (add_includes-Combines ids here u (ws k) c))

contains_entry : (xs : List ℕ) (x : ℕ) → contains xs x ≡ true → (i : ℕ) × (entry_at i xs ≡ some x)
unfolding contains entry_at
contains_entry [] x h = absurd (false≢true h)
contains_entry (y ∷ xs) x h = elim (Bool-cases (y == x)) [
  | inl e ↦ (0, ap some ((nat_beq_iff y x).0 e))
  | inr e ↦ let (i, found) = contains_entry xs x (ground (arith, h, e)) in (suc i, found)
]

entry_contained : (xs : List ℕ) (i x : ℕ) → entry_at i xs ≡ some x → contains xs x ≡ true
unfolding contains entry_at
entry_contained [] i x h = ground (arith, h)
entry_contained (y ∷ xs) zero x h = ground (arith, h, nat_beq_iff y x)
entry_contained (y ∷ xs) (suc i) x h = ground (arith, entry_contained xs i x h)

start-Combines : Combines [] (record { seen = []; result = [] })
unfolding lookup entry_at contains
start-Combines = record {
  missing = λ r h. refl;
  included = λ r i h. ground (arith, h);
  found = λ r i h. ground (arith, h);
  indexed = λ i x h. ground (arith, h);
}

-- The union of some includes: an entry for each file, without the flag where some include of the file
-- is not in a conditional.
pub record UnionOf (ids result : List ℕ) : Type 0 where
  pub entries :
      (x : ℕ)
      → (contains result x ≡ true)
        ↔ ((includes_file ids (path_of x) ≡ true) × (x ≡ mark ids (path_of x)))
  pub distinct :
      (i j x y : ℕ)
      → entry_at i result ≡ some x
      → entry_at j result ≡ some y
      → path_of x ≡ path_of y
      → i ≡ j

Combines-UnionOf : (ids : List ℕ) (u : Union) → Combines ids u → UnionOf ids u.result
Combines-UnionOf ids u c = record {
  entries = λ x. (
    λ h.
        let (i, e) = contains_entry u.result x h in
        let there = c.indexed i x e in
        (c.included (path_of x) i there, ground (arith, e, c.found (path_of x) i there)),
    λ (h, m). elim (Option-cases (lookup (path_of x) u.seen)) [
      | inl e ↦ absurd (ground (arith, h, c.missing (path_of x) e))
      | inr (i, e) ↦ entry_contained u.result i x (c.found (path_of x) i e ∙ ap some (sym m))
    ],
  );
  distinct = λ i j x y hx hy same.
      let at_i = c.indexed i x hx in
      let at_j = c.indexed j y hy in ground (arith, at_i, at_j, same);
}

-- get_all_includes answers the union of the includes over the configurations of the file: each file that
-- some configuration includes stands in it once, with the conditional flag unless one of the includes is
-- unconditional.
pub get_all_includes-UnionOf :
    (path : ℕ) (g : DependencyGraph)
    → ((c : ℕ) → Words (get_includes path c g))
    → UnionOf (all_of path (vector_of (lookup path g.file_configs)) g) (get_all_includes path g)
unfolding get_all_includes
get_all_includes-UnionOf path g ws =
    let configs = vector_of (lookup path g.file_configs) in
    let start : Union = record { seen = []; result = [] } in
    Combines-UnionOf (all_of path configs g) (add_configs path configs g start)
      (add_configs-Combines path configs g [] start ws start-Combines)
