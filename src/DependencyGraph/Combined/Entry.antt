-- ===== src/DependencyGraph/Combined/Entry.antt =====
-- src/syntax/dependency_graph.cpp: one include is added to the union.
use clice.Base.{
  ℕ, ◌^◌, ◌<◌, ◌≡◌, refl, sym, subst, ap, ◌∙◌, inl, inr, true, false, Option, none, some, List, [],
  ◌∷◌, ◌++◌, Table, lookup, insert, lookup-insert, length, ltb, ◌==◌, nat_equality, nat_beq_iff,
  arith, Bool-cases, eq_self, All,
}
use clice.DependencyGraph.{path_of, is_conditional, Union, set_at, put_include, add_include}
use clice.DependencyGraph.Combined.Flags.{
  includes_file-last, included_bound, entry_at, entry_at-last, entry_at-set_at, entry_at-length,
  mark, includes_file, unconditional-last, unconditional_included, path_of-mark, id-flag,
}

-- The variables after the includes `ids`.
pub record Combines (ids : List ℕ) (u : Union) : Type 0 where
  pub missing : (r : ℕ) → lookup r u.seen ≡ none → includes_file ids r ≡ false
  pub included : (r i : ℕ) → lookup r u.seen ≡ some i → includes_file ids r ≡ true
  pub found : (r i : ℕ) → lookup r u.seen ≡ some i → entry_at i u.result ≡ some (mark ids r)
  pub indexed : (i x : ℕ) → entry_at i u.result ≡ some x → lookup (path_of x) u.seen ≡ some i

-- The flag of a file that is included for the first time.
pub mark_first :
    (ids : List ℕ) (id : ℕ)
    → id < 2 ^ 32
    → includes_file ids (path_of id) ≡ false
    → mark (ids ++ (id ∷ [])) (path_of id) ≡ id
unfolding mark
mark_first ids id bound fresh = ground (
  arith,
  unconditional-last ids id (path_of id),
  unconditional_included ids (path_of id),
  fresh,
  id-flag id bound,
  eq_self (path_of id),
)

-- An include of another file, or one in a conditional of a file that is there, changes no flag.
pub mark_other :
    (ids : List ℕ) (id r : ℕ) → (path_of id == r) ≡ false → mark (ids ++ (id ∷ [])) r ≡ mark ids r
unfolding mark
mark_other ids id r e = ground (arith, e, unconditional-last ids id r)

pub mark_conditional :
    (ids : List ℕ) (id r : ℕ) → is_conditional id ≡ true → mark (ids ++ (id ∷ [])) r ≡ mark ids r
unfolding mark
mark_conditional ids id r e = ground (arith, e, unconditional-last ids id r)

pub mark_unconditional :
    (ids : List ℕ) (id : ℕ)
    → is_conditional id ≡ false
    → mark (ids ++ (id ∷ [])) (path_of id) ≡ path_of id
unfolding mark
mark_unconditional ids id e =
    ground (arith, e, unconditional-last ids id (path_of id), eq_self (path_of id))

pub add_new_include :
    (ids : List ℕ) (id : ℕ) (seen : Table ℕ ℕ) (result : List ℕ)
    → id < 2 ^ 32
    → Combines ids (record { seen = seen; result = result })
    → lookup (path_of id) seen ≡ none
    → Combines
        (ids ++ (id ∷ []))
        (record { seen = insert (path_of id) (length result) seen; result = result ++ (id ∷ []) })
add_new_include ids id seen result bound c absent =
    let raw = path_of id in
    record {
      missing = λ r h. ground (
        arith,
        h,
        lookup-insert raw r (length result) seen,
        includes_file-last ids id r,
        c.missing r,
      );
      included = λ r i h. ground (
        arith,
        h,
        lookup-insert raw r (length result) seen,
        includes_file-last ids id r,
        c.included r i,
      );
      found = λ r i h. elim (Bool-cases (raw == r)) [
        | inl e ↦
            let same = (nat_beq_iff raw r).0 e in
            let here : length result ≡ i =
              ground (arith, h, e, lookup-insert raw r (length result) seen) in
            entry_at-last i result id
            ∙ (ground (
              arith,
              here,
              subst (λ q. mark (ids ++ (id ∷ [])) q ≡ id) same
                  (mark_first ids id bound (c.missing raw absent)),
            ))
        | inr e ↦
            let old : lookup r seen ≡ some i =
              ground (arith, h, e, lookup-insert raw r (length result) seen) in
            let value = c.found r i old in
            ground (
              arith,
              value,
              entry_at-length i (mark ids r) result value,
              entry_at-last i result id,
              mark_other ids id r e,
            )
      ];
      indexed = λ i x h. elim (Bool-cases (ltb i (length result))) [
        | inl e ↦
            let old : entry_at i result ≡ some x =
              ground (arith, h, e, entry_at-last i result id) in
            let there = c.indexed i x old in
            ground (
              arith,
              there,
              absent,
              lookup-insert raw (path_of x) (length result) seen,
              nat_beq_iff raw (path_of x),
            )
        | inr e ↦
            let last : i ≡ length result = ground (arith, h, e, entry_at-last i result id) in
            let same : id ≡ x = ground (arith, h, e, entry_at-last i result id) in
            subst (λ y. lookup (path_of y) (insert raw (length result) seen) ≡ some i) same
              (ground (arith, last, lookup-insert raw raw (length result) seen, eq_self raw))
      ];
    }

pub add_known_include :
    (ids : List ℕ) (id k : ℕ) (u : Union)
    → is_conditional id ≡ true
    → Combines ids u
    → lookup (path_of id) u.seen ≡ some k
    → Combines (ids ++ (id ∷ [])) u
add_known_include ids id k u flag c there = record {
  missing = λ r h.
      ground
        (arith, h, there, includes_file-last ids id r, c.missing r h, nat_beq_iff (path_of id) r);
  included = λ r i h. ground (arith, h, includes_file-last ids id r, c.included r i h);
  found = λ r i h. c.found r i h ∙ ap some (sym (mark_conditional ids id r flag));
  indexed = c.indexed;
}

-- Two files of the union at one index are the same.
pub same_index :
    (ids : List ℕ) (u : Union) (r q i : ℕ)
    → Combines ids u
    → lookup r u.seen ≡ some i
    → lookup q u.seen ≡ some i
    → r ≡ q
same_index ids u r q i c hr hq =
    let same : some (mark ids r) ≡ some (mark ids q) = sym (c.found r i hr) ∙ c.found q i hq in
    let marks : mark ids r ≡ mark ids q = ground (arith, same) in
    sym (path_of-mark ids r (included_bound ids r (c.included r i hr)))
    ∙ ap path_of marks
    ∙ path_of-mark ids q (included_bound ids q (c.included q i hq))

pub path_of-path_of : (id : ℕ) → path_of (path_of id) ≡ path_of id
unfolding path_of
path_of-path_of id = omega arith

pub add_unconditional_include :
    (ids : List ℕ) (id k : ℕ) (seen : Table ℕ ℕ) (result : List ℕ)
    → is_conditional id ≡ false
    → Combines ids (record { seen = seen; result = result })
    → lookup (path_of id) seen ≡ some k
    → Combines (ids ++ (id ∷ [])) (record { seen = seen; result = set_at k (path_of id) result })
add_unconditional_include ids id k seen result flag c there =
    let raw = path_of id in
    let u : Union = record { seen = seen; result = result } in
    let inside = entry_at-length k (mark ids raw) result (c.found raw k there) in
    record {
      missing = λ r h.
          ground (arith, h, there, includes_file-last ids id r, c.missing r h, nat_beq_iff raw r);
      included = λ r i h. ground (arith, h, includes_file-last ids id r, c.included r i h);
      found = λ r i h. elim (Bool-cases (k == i)) [
        | inl e ↦
            let at_k : lookup r seen ≡ some k = h ∙ ap some (sym ((nat_beq_iff k i).0 e)) in
            let same = same_index ids u raw r k c there at_k in
            let value =
              subst (λ q. mark (ids ++ (id ∷ [])) q ≡ raw) same (mark_unconditional ids id flag) in
            ground (arith, e, value, entry_at-set_at k i raw result inside)
        | inr e ↦
            let other : (raw == r) ≡ false =
              ground (arith, e, h, there, nat_beq_iff raw r, nat_beq_iff k i) in
            ground (
              arith,
              e,
              c.found r i h,
              entry_at-set_at k i raw result inside,
              mark_other ids id r other,
            )
      ];
      indexed = λ i x h. elim (Bool-cases (k == i)) [
        | inl e ↦
            let same : raw ≡ x = ground (arith, e, h, entry_at-set_at k i raw result inside) in
            let at_i : lookup raw seen ≡ some i = there ∙ ap some ((nat_beq_iff k i).0 e) in
            subst (λ y. lookup y seen ≡ some i) (sym (path_of-path_of id) ∙ ap path_of same) at_i
        | inr e ↦ c.indexed i x (ground (arith, e, h, entry_at-set_at k i raw result inside))
      ];
    }

pub put_include-Combines :
    (ids : List ℕ) (id : ℕ) (u : Union) (o : Option ℕ)
    → id < 2 ^ 32
    → Combines ids u
    → lookup (path_of id) u.seen ≡ o
    → Combines (ids ++ (id ∷ [])) (put_include o id u)
unfolding put_include
put_include-Combines ids id u none bound c e = add_new_include ids id u.seen u.result bound c e
put_include-Combines ids id u (some k) bound c e = elim (Bool-cases (is_conditional id)) [
  | inl b ↦ rw b (add_known_include ids id k u b c e)
  | inr b ↦ rw b (add_unconditional_include ids id k u.seen u.result b c e)
]

pub add_include-Combines :
    (ids : List ℕ) (id : ℕ) (u : Union)
    → id < 2 ^ 32
    → Combines ids u
    → Combines (ids ++ (id ∷ [])) (add_include id u)
unfolding add_include
add_include-Combines ids id u bound c =
    put_include-Combines ids id u (lookup (path_of id) u.seen) bound c refl

abbrev pub Words : List ℕ → Type 0
Words ids = All (λ id. id < 2 ^ 32) ids
