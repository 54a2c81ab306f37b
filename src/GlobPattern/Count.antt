-- ===== src/GlobPattern/Count.antt =====
-- src/support/glob_pattern.cpp: how many patterns parseBraceExpansions makes.
use native.Mathlib.Nat.{mul_assoc, mul-le-mul_right, mul-le-mul, div-mul-le_self, div-lt_iff_lt-mul}
use clice.Base.{
  All, Option, none, some, ◌&&◌, u64, ℕ, zero, suc, ◌+◌, ◌-◌, ◌*◌, ◌/◌, ◌%◌, ◌≤◌, ◌<◌, ◌≡◌, refl,
  ap, ◌∙◌, inl, inr, List, [], ◌∷◌, ◌++◌, map, length, length-append, ltb, contains, not, ◌||◌, ◌⊎◌,
  true, false, Bool, ◌==◌, nat_equality, arith, Bool-cases,
}
use clice.GlobPattern.{
  Bytes, Parsed, done, invalid, outside, out_of_fuel, BraceExpansion, count_patterns, size_max,
  put_term, put_terms, expand_braces, Scan, OpenBrace, term_at, past_bracket, skip_bracket,
  scan_bracket, scan_open, scan_comma, scan_close, scan_escape, scan_step, finish, go_on,
  subpatterns_of, scan, parse_brace_expansions,
}

-- The product of the numbers of terms, without bound.
unfoldable pub product : List BraceExpansion → ℕ
product [] = 1
product (b ∷ bs) = length b.terms * product bs

length-map : (f : Bytes → Bytes) (xs : List Bytes) → length (map f xs) ≡ length xs
length-map f [] = refl
length-map f (x ∷ xs) = omega (arith, length-map f xs)

length-put_terms :
    (b : BraceExpansion) (ts origs : List Bytes)
    → length (put_terms b ts origs) ≡ length ts * length origs
unfolding put_terms
length-put_terms b [] origs = omega arith
length-put_terms b (t ∷ ts) origs =
    length-append (map (put_term b t) origs) (put_terms b ts origs)
    ∙ (ground (arith, length-map (put_term b t) origs, length-put_terms b ts origs))

length-expand_braces :
    (bs : List BraceExpansion) (s : Bytes) → length (expand_braces bs (s ∷ [])) ≡ product bs
unfolding expand_braces product
length-expand_braces [] s = refl
length-expand_braces (b ∷ bs) s =
    length-put_terms b b.terms (expand_braces bs (s ∷ []))
    ∙ ap (λ k. length b.terms * k) (length-expand_braces bs s)

-- A product that the guard let through did not wrap around.
quotient_bound : (n m t : ℕ) → n ≤ m / t → n * t ≤ m
quotient_bound n m t l = omega (arith, mul-le-mul_right t l, div-mul-le_self m t)

-- Each brace has a term.
abbrev HasTerms : List BraceExpansion → Type 0
HasTerms bs = All (λ b. 1 ≤ length b.terms) bs

abbrev Keeps : Parsed Scan → Type 0
Keeps (done st) = HasTerms st.braces
Keeps (invalid e) = Unit
Keeps outside = Unit
Keeps out_of_fuel = Unit

abbrev Kept : Parsed (List BraceExpansion) → Type 0
Kept (done braces) = HasTerms braces
Kept (invalid e) = Unit
Kept outside = Unit
Kept out_of_fuel = Unit

HasTerms-last :
    (bs : List BraceExpansion) (b : BraceExpansion)
    → HasTerms bs
    → 1 ≤ length b.terms
    → HasTerms (bs ++ (b ∷ []))
HasTerms-last [] b h l = (l, tt)
HasTerms-last (x ∷ bs) b h l = (h.0, HasTerms-last bs b h.1 l)

past_bracket-Keeps :
    (r : Parsed ℕ) (n : ℕ) (rest : Bytes) (st : Scan)
    → HasTerms st.braces
    → Keeps (past_bracket r n rest st)
unfolding past_bracket
past_bracket-Keeps (done k) n rest st h = h
past_bracket-Keeps (invalid e) n rest st h = tt
past_bracket-Keeps outside n rest st h = tt
past_bracket-Keeps out_of_fuel n rest st h = tt

scan_bracket-Keeps : (cs : Bytes) (st : Scan) → HasTerms st.braces → Keeps (scan_bracket cs st)
unfolding scan_bracket
scan_bracket-Keeps [] st h = tt
scan_bracket-Keeps (d ∷ ds) st h = elim (Bool-cases (d == b']')) [
  | inl e ↦ rw e (past_bracket-Keeps (skip_bracket ds) 2 ds st h)
  | inr e ↦ rw e (past_bracket-Keeps (skip_bracket (d ∷ ds)) 1 (d ∷ ds) st h)
]

scan_open-Keeps :
    (o : Option OpenBrace) (cs : Bytes) (st : Scan) → HasTerms st.braces → Keeps (scan_open o cs st)
unfolding scan_open
scan_open-Keeps none cs st h = h
scan_open-Keeps (some b) cs st h = tt

scan_comma-Keeps :
    (s : Bytes) (o : Option OpenBrace) (cs : Bytes) (st : Scan)
    → HasTerms st.braces
    → Keeps (scan_comma s o cs st)
unfolding scan_comma
scan_comma-Keeps s none cs st h = h
scan_comma-Keeps s (some b) cs st h = h

scan_close-Keeps :
    (s : Bytes) (o : Option OpenBrace) (cs : Bytes) (st : Scan)
    → HasTerms st.braces
    → Keeps (scan_close s o cs st)
unfolding scan_close
scan_close-Keeps s none cs st h = h
scan_close-Keeps s (some b) cs st h =
    elim (Bool-cases (length b.terms == 0 && st.i - b.term_begin == 0)) [
      | inl e ↦ rw e tt
      | inr e ↦ rw e (
          HasTerms-last st.braces
            (record {
              start = b.start;
              size = st.i - b.start + 1;
              terms = b.terms ++ (term_at s b st.i ∷ []);
            })
            h (omega (arith, length-append b.terms (term_at s b st.i ∷ []))))
    ]

scan_escape-Keeps : (cs : Bytes) (st : Scan) → HasTerms st.braces → Keeps (scan_escape cs st)
unfolding scan_escape
scan_escape-Keeps [] st h = tt
scan_escape-Keeps (d ∷ ds) st h = h

scan_step-Keeps :
    (s : Bytes) (c : ℕ) (cs : Bytes) (st : Scan) → HasTerms st.braces → Keeps (scan_step s c cs st)
unfolding scan_step
scan_step-Keeps s c cs st h = elim (Bool-cases (c == b'[')) [
  | inl e ↦ rw e (scan_bracket-Keeps cs st h)
  | inr e ↦ rw e (elim (Bool-cases (c == b'{')) [
    | inl e ↦ rw e (scan_open-Keeps st.current cs st h)
    | inr e ↦ rw e (elim (Bool-cases (c == b',')) [
      | inl e ↦ rw e (scan_comma-Keeps s st.current cs st h)
      | inr e ↦ rw e (elim (Bool-cases (c == b'}')) [
        | inl e ↦ rw e (scan_close-Keeps s st.current cs st h)
        | inr e ↦ rw e (elim (Bool-cases (c == b'\\')) [
          | inl e ↦ rw e (scan_escape-Keeps cs st h)
          | inr e ↦ rw e (h)
        ])
      ])
    ])
  ])
]

go_on-Kept :
    (next : Scan → Parsed (List BraceExpansion)) (r : Parsed Scan)
    → Keeps r
    → ((st : Scan) → HasTerms st.braces → Kept (next st))
    → Kept (go_on next r)
unfolding go_on
go_on-Kept next (done st) h k = k st h
go_on-Kept next (invalid e) h k = tt
go_on-Kept next outside h k = tt
go_on-Kept next out_of_fuel h k = tt

finish-Kept :
    (o : Option OpenBrace) (braces : List BraceExpansion) → HasTerms braces → Kept (finish o braces)
unfolding finish
finish-Kept none braces h = h
finish-Kept (some b) braces h = tt

scan-Kept :
    (f : ℕ) (s : Bytes) (i : ℕ) (rest : Bytes) (current : Option OpenBrace)
    (braces : List BraceExpansion)
    → HasTerms braces
    → Kept (scan f s (record { i = i; rest = rest; current = current; braces = braces }))
unfolding scan
scan-Kept zero s i rest current braces h = tt
scan-Kept (suc f) s i [] current braces h = finish-Kept current braces h
scan-Kept (suc f) s i (c ∷ cs) current braces h =
    let st : Scan = record { i = i; rest = c ∷ cs; current = current; braces = braces } in
    go_on-Kept (scan f s) (scan_step s c cs st) (scan_step-Keeps s c cs st h)
      (λ t k. scan-Kept f s t.i t.rest t.current t.braces k)

product_positive : (bs : List BraceExpansion) → HasTerms bs → 1 ≤ product bs
unfolding product
product_positive [] h = omega arith
product_positive (b ∷ bs) h = mul-le-mul h.0 (product_positive bs h.1)

-- What the guard stops is over the largest number.
quotient_over : (n m t : ℕ) → 1 ≤ t → m / t < n → m < n * t
quotient_over n m t pos l = (div-lt_iff_lt-mul pos).0 l

above_product : (n t k : ℕ) → 1 ≤ k → n * t ≤ n * (t * k)
above_product n t k pos =
    let same : t ≤ t = omega arith in
    let more = mul-le-mul same pos in
    let outer : n ≤ n = omega arith in
    let longer : t ≤ t * k = omega (arith, more) in mul-le-mul outer longer

-- The comparison of the capped product with the limit is that of the product without bound.
count_patterns-product :
    (bs : List BraceExpansion) (n limit : ℕ)
    → n < u64
    → limit < size_max
    → HasTerms bs
    → ltb limit (count_patterns bs n) ≡ ltb limit (n * product bs)
unfolding count_patterns product
count_patterns-product [] n limit l small h = ap (ltb limit) (omega arith)
count_patterns-product (b ∷ bs) n limit l small h =
    let t = length b.terms in
    elim (Bool-cases (ltb (size_max / t) n)) [
      | inl e ↦
          let over = quotient_over n size_max t h.0 (ground (arith, e)) in
          let more = above_product n t (product bs) (product_positive bs h.1) in
          rw e (
            both_true limit size_max (n * (t * product bs)) small
              (omega (arith, over, more, small)))
      | inr e ↦
          let fits = quotient_bound n size_max t (ground (arith, e)) in
          let same : (n * t) % u64 ≡ n * t = omega (arith, fits) in
          rw e (
            count_patterns-product bs ((n * t) % u64) limit (omega (arith, fits, same)) small h.1
            ∙ ap (ltb limit) (ap (λ k. k * product bs) same ∙ mul_assoc n t (product bs)))
    ]
  where
    both_true : (l a c : ℕ) → l < a → l < c → ltb l a ≡ ltb l c
    both_true l a c p q = ground (arith, p, q)

abbrev pub too_many : Parsed (List Bytes)
too_many = invalid "Too many brace expansions"

-- The patterns that are made of the braces of a text: as many as the product of the numbers of terms
-- says, where this is within the limit, and an error where it is not. An error of the scan stays.
abbrev pub Counted : ℕ → Parsed (List BraceExpansion) → Parsed (List Bytes) → Type 0
Counted limit (done braces) r =
    (1 ≤ product braces)
    × (((ps : List Bytes) × (r ≡ done ps) × (length ps ≡ product braces) × (product braces ≤ limit))
        ⊎ ((r ≡ too_many) × (limit < product braces)))
Counted limit (invalid e) r = r ≡ invalid e
Counted limit outside r = r ≡ outside
Counted limit out_of_fuel r = r ≡ out_of_fuel

subpatterns_of-Counted :
    (s : Bytes) (limit : ℕ) (r : Parsed (List BraceExpansion))
    → limit < size_max
    → Kept r
    → Counted limit r (subpatterns_of s limit r)
unfolding subpatterns_of
subpatterns_of-Counted s limit (done braces) l h = (product_positive braces h, by_test)
  where
    same : ltb limit (count_patterns braces 1) ≡ ltb limit (1 * product braces)
    same = count_patterns-product braces 1 limit (omega arith) l h

    by_test :
        ((ps : List Bytes) × (subpatterns_of s limit (done braces) ≡ done ps)
          × (length ps ≡ product braces)
          × (product braces ≤ limit))
        ⊎ ((subpatterns_of s limit (done braces) ≡ too_many) × (limit < product braces))
    by_test = elim (Bool-cases (ltb limit (count_patterns braces 1))) [
      | inl e ↦ inr (rw e refl, ground (arith, e, same))
      | inr e ↦ inl (
        expand_braces braces (s ∷ []),
        rw e refl,
        length-expand_braces braces s,
        ground (arith, e, same),
      )
    ]
subpatterns_of-Counted s limit (invalid e) l h = refl
subpatterns_of-Counted s limit outside l h = refl
subpatterns_of-Counted s limit out_of_fuel l h = refl

-- The braces of a text.
abbrev pub braces_of : Bytes → Parsed (List BraceExpansion)
braces_of s = scan (suc (length s)) s (record { i = 0; rest = s; current = none; braces = [] })

-- Where the limit is positive and below the largest std::size_t, and the text has an opening brace,
-- parseBraceExpansions makes exactly as many patterns as the product, without wrap-around, of the numbers
-- of terms of the braces of the text, at least one, if this product is within the limit; if it is
-- not, the answer is the error "Too many brace expansions". Where the loop over the text ends with an error,
-- that is the answer.
pub parse_brace_expansions-Counted :
    (s : Bytes) (limit : ℕ)
    → 0 < limit
    → limit < size_max
    → contains s b'{' ≡ true
    → Counted limit (braces_of s) (parse_brace_expansions s limit)
unfolding parse_brace_expansions
parse_brace_expansions-Counted s limit pos l here =
    rw (expanded limit (contains s b'{') pos here)
      (subpatterns_of-Counted s limit (braces_of s) l (scan-Kept (suc (length s)) s 0 s none [] tt))
  where
    expanded : (n : ℕ) (b : Bool) → 0 < n → b ≡ true → (n == 0 || not b) ≡ false
    expanded n b p e = ground (arith, p, e)
