-- ===== src/GlobPattern/Fuel.antt =====
-- src/support/glob_pattern.cpp: the end of the loop of parseBraceExpansions.
use clice.Base.{
  ℕ, zero, suc, ◌+◌, ◌-◌, ◌≡◌, true, false, ◌&&◌, ◌≤◌, ◌<◌, inl, inr, Option, none, some, List, [],
  ◌∷◌, length, Bool-cases, arith, ◌==◌, nat_equality, contains, ltb, not, ◌||◌,
}
use clice.GlobPattern.{
  Bytes, Parsed, done, invalid, outside, out_of_fuel, Scan, OpenBrace, BraceExpansion, drop_bytes,
  longer, skip_bracket, past_bracket, scan_bracket, scan_open, scan_comma, scan_close, scan_escape,
  scan_step, finish, go_on, count_patterns, scan, subpatterns_of, parse_brace_expansions,
}

-- An answer, a value or an error.
abbrev pub Ended {ℓ} : {A : Type ℓ} → Parsed A → Type 0
Ended (done x) = Unit
Ended (invalid e) = Unit
Ended outside = ⊥
Ended out_of_fuel = ⊥

-- The last byte, if there is one, is neither '[' nor a backslash.
abbrev pub Closes : Bytes → Type 0
Closes [] = Unit
Closes (c ∷ []) = ((c == b'[') ≡ false) × ((c == b'\\') ≡ false)
Closes (c ∷ d ∷ cs) = Closes (d ∷ cs)

-- The step goes on with at most `n` bytes, or ends the loop with an error.
abbrev Advances : ℕ → Parsed Scan → Type 0
Advances n (done st) = (length st.rest ≤ n) × Closes st.rest
Advances n (invalid e) = Unit
Advances n outside = ⊥
Advances n out_of_fuel = ⊥

Advances-mono : (m n : ℕ) (r : Parsed Scan) → m ≤ n → Advances m r → Advances n r
Advances-mono m n (done st) l h = (omega (arith, l, h.0), h.1)
Advances-mono m n (invalid e) l h = tt
Advances-mono m n outside l h = h
Advances-mono m n out_of_fuel l h = h

Closes-tail : (c : ℕ) (cs : Bytes) → Closes (c ∷ cs) → Closes cs
Closes-tail c [] h = tt
Closes-tail c (d ∷ cs) h = h

drop_bytes-Closes : (n : ℕ) (s : Bytes) → Closes s → Closes (drop_bytes n s)
unfolding drop_bytes
drop_bytes-Closes zero s h = h
drop_bytes-Closes (suc n) [] h = tt
drop_bytes-Closes (suc n) (c ∷ cs) h = drop_bytes-Closes n cs (Closes-tail c cs h)

length-drop_bytes : (n : ℕ) (s : Bytes) → length (drop_bytes n s) ≤ length s
unfolding drop_bytes
length-drop_bytes zero s = omega arith
length-drop_bytes (suc n) [] = omega arith
length-drop_bytes (suc n) (c ∷ cs) = omega (arith, length-drop_bytes n cs)

longer-Ended : (n : ℕ) (r : Parsed ℕ) → Ended r → Ended (longer n r)
unfolding longer
longer-Ended n (done k) h = tt
longer-Ended n (invalid e) h = tt
longer-Ended n outside h = h
longer-Ended n out_of_fuel h = h

skip_bracket-Ended : (s : Bytes) → Closes s → Ended (skip_bracket s)
unfolding skip_bracket
skip_bracket-Ended [] h = tt
skip_bracket-Ended (c ∷ []) h = elim (Bool-cases (c == b']')) [
  | inl e ↦ rw e tt
  | inr e ↦ rw (e, h.1) tt
]
skip_bracket-Ended (c ∷ d ∷ cs) h = elim (Bool-cases (c == b']')) [
  | inl e ↦ rw e tt
  | inr e ↦ rw e (elim (Bool-cases (c == b'\\')) [
    | inl g ↦ rw g (longer-Ended 2 (skip_bracket cs) (skip_bracket-Ended cs (Closes-tail d cs h)))
    | inr g ↦ rw g (longer-Ended 1 (skip_bracket (d ∷ cs)) (skip_bracket-Ended (d ∷ cs) h))
  ])
]

past_bracket-Advances :
    (r : Parsed ℕ) (n : ℕ) (rest : Bytes) (st : Scan)
    → Closes rest
    → Ended r
    → Advances (length rest) (past_bracket r n rest st)
unfolding past_bracket
past_bracket-Advances (done k) n rest st c h =
    (length-drop_bytes (k + 1) rest, drop_bytes-Closes (k + 1) rest c)
past_bracket-Advances (invalid e) n rest st c h = tt
past_bracket-Advances outside n rest st c h = h
past_bracket-Advances out_of_fuel n rest st c h = h

scan_bracket-Advances :
    (c : ℕ) (cs : Bytes) (st : Scan)
    → (c == b'[') ≡ true
    → Closes (c ∷ cs)
    → Advances (length cs) (scan_bracket cs st)
unfolding scan_bracket
scan_bracket-Advances c [] st is_open h = absurd (ground (arith, is_open, h.0))
scan_bracket-Advances c (d ∷ ds) st is_open h = elim (Bool-cases (d == b']')) [
  | inl e ↦
      let left = Closes-tail d ds h in
      rw e (
        Advances-mono (length ds) (suc (length ds)) (past_bracket (skip_bracket ds) 2 ds st)
          (omega arith)
          (past_bracket-Advances (skip_bracket ds) 2 ds st left (skip_bracket-Ended ds left)))
  | inr e ↦ rw e (
      past_bracket-Advances (skip_bracket (d ∷ ds)) 1 (d ∷ ds) st h (skip_bracket-Ended (d ∷ ds) h))
]

scan_open-Advances :
    (o : Option OpenBrace) (cs : Bytes) (st : Scan)
    → Closes cs
    → Advances (length cs) (scan_open o cs st)
unfolding scan_open
scan_open-Advances none cs st h = (omega arith, h)
scan_open-Advances (some b) cs st h = tt

scan_comma-Advances :
    (s : Bytes) (o : Option OpenBrace) (cs : Bytes) (st : Scan)
    → Closes cs
    → Advances (length cs) (scan_comma s o cs st)
unfolding scan_comma
scan_comma-Advances s none cs st h = (omega arith, h)
scan_comma-Advances s (some b) cs st h = (omega arith, h)

scan_close-Advances :
    (s : Bytes) (o : Option OpenBrace) (cs : Bytes) (st : Scan)
    → Closes cs
    → Advances (length cs) (scan_close s o cs st)
unfolding scan_close
scan_close-Advances s none cs st h = (omega arith, h)
scan_close-Advances s (some b) cs st h =
    elim (Bool-cases (length b.terms == 0 && st.i - b.term_begin == 0)) [
      | inl e ↦ rw e tt
      | inr e ↦ rw e (omega arith, h)
    ]

scan_escape-Advances :
    (cs : Bytes) (st : Scan) → Closes cs → Advances (length cs) (scan_escape cs st)
unfolding scan_escape
scan_escape-Advances [] st h = tt
scan_escape-Advances (d ∷ ds) st h = (omega arith, Closes-tail d ds h)

scan_step-Advances :
    (s : Bytes) (c : ℕ) (cs : Bytes) (st : Scan)
    → Closes (c ∷ cs)
    → Advances (length cs) (scan_step s c cs st)
unfolding scan_step
scan_step-Advances s c cs st h = elim (Bool-cases (c == b'[')) [
  | inl e ↦ rw e (scan_bracket-Advances c cs st e h)
  | inr e ↦ rw e (elim (Bool-cases (c == b'{')) [
    | inl e ↦ rw e (scan_open-Advances st.current cs st (Closes-tail c cs h))
    | inr e ↦ rw e (elim (Bool-cases (c == b',')) [
      | inl e ↦ rw e (scan_comma-Advances s st.current cs st (Closes-tail c cs h))
      | inr e ↦ rw e (elim (Bool-cases (c == b'}')) [
        | inl e ↦ rw e (scan_close-Advances s st.current cs st (Closes-tail c cs h))
        | inr e ↦ rw e (elim (Bool-cases (c == b'\\')) [
          | inl e ↦ rw e (scan_escape-Advances cs st (Closes-tail c cs h))
          | inr e ↦ rw e (omega arith, Closes-tail c cs h)
        ])
      ])
    ])
  ])
]

finish-Ended : (o : Option OpenBrace) (braces : List BraceExpansion) → Ended (finish o braces)
unfolding finish
finish-Ended none braces = tt
finish-Ended (some b) braces = tt

go_on-Ended :
    (n : ℕ) (next : Scan → Parsed (List BraceExpansion)) (r : Parsed Scan)
    → Advances n r
    → ((st : Scan) → length st.rest ≤ n → Closes st.rest → Ended (next st))
    → Ended (go_on next r)
unfolding go_on
go_on-Ended n next (done st) h k = k st h.0 h.1
go_on-Ended n next (invalid e) h k = tt
go_on-Ended n next outside h k = h
go_on-Ended n next out_of_fuel h k = h

scan-Ended :
    (f : ℕ) (s : Bytes) (i : ℕ) (rest : Bytes) (current : Option OpenBrace)
    (braces : List BraceExpansion)
    → length rest < f
    → Closes rest
    → Ended (scan f s (record { i = i; rest = rest; current = current; braces = braces }))
unfolding scan
scan-Ended zero s i rest current braces l h = absurd (omega arith)
scan-Ended (suc f) s i [] current braces l h = finish-Ended current braces
scan-Ended (suc f) s i (c ∷ cs) current braces l h =
    let st : Scan = record { i = i; rest = c ∷ cs; current = current; braces = braces } in
    go_on-Ended (length cs) (scan f s) (scan_step s c cs st) (scan_step-Advances s c cs st h)
      (λ t k g. scan-Ended f s t.i t.rest t.current t.braces (omega (arith, l, k)) g)

subpatterns_of-Ended :
    (s : Bytes) (limit : ℕ) (r : Parsed (List BraceExpansion))
    → Ended r
    → Ended (subpatterns_of s limit r)
unfolding subpatterns_of
subpatterns_of-Ended s limit (done braces) h =
    elim (Bool-cases (ltb limit (count_patterns braces 1))) [ inl e ↦ rw e tt | inr e ↦ rw e tt ]
subpatterns_of-Ended s limit (invalid e) h = tt
subpatterns_of-Ended s limit outside h = h
subpatterns_of-Ended s limit out_of_fuel h = h

-- On a text whose last byte, if there is one, is neither '[' nor a backslash, parseBraceExpansions ends with
-- patterns or an error, within a step for each byte of the text and without a read behind its end.
pub parse_brace_expansions-Ended :
    (s : Bytes) (limit : ℕ) → Closes s → Ended (parse_brace_expansions s limit)
unfolding parse_brace_expansions
parse_brace_expansions-Ended s limit h = elim (Bool-cases (limit == 0 || not (contains s b'{'))) [
  | inl e ↦ rw e tt
  | inr e ↦ rw e (
      subpatterns_of-Ended s limit
        (scan (suc (length s)) s (record { i = 0; rest = s; current = none; braces = [] }))
        (scan-Ended (suc (length s)) s 0 s none [] (omega arith) h))
]
