-- ===== src/GlobPattern.antt =====
-- src/support/glob_pattern.cpp: the parts of a pattern that GlobPattern::create works out, on bytes that
-- are numbers. A read behind the end of the text is a result of its own.
mod Count
mod Fuel
mod Prefix
mod Samples
use clice.Base.{
  u64, ℕ, zero, suc, ◌+◌, ◌-◌, ◌*◌, ◌/◌, ◌%◌, Bool, true, false, not, ◌||◌, ◌&&◌, Option, none,
  some, List, [], ◌∷◌, ◌++◌, map, String, contains, length, if◌then◌else◌, ltb, ◌==◌, nat_equality,
}

abbrev pub Bytes : Type 0
Bytes = List ℕ

pub data Parsed {ℓ} (A : Type ℓ) : Type ℓ where
  done : A → Parsed A
  invalid : String → Parsed A
  outside : Parsed A
  out_of_fuel : Parsed A

-- The check of the prefix for repeated slashes, from the byte with index `i`.
unfoldable pub rejects_slash : ℕ → ℕ → Bytes → Bool
rejects_slash i last_slash [] = false
rejects_slash i last_slash (c ∷ cs) =
    let rest = rejects_slash (i + 1) i cs in
    if c == b'/' && (i + u64 - last_slash) % u64 == 1 then true else rest

unfoldable pub is_meta : ℕ → Bool
is_meta c = c == b'?' || c == b'*' || c == b'[' || c == b'{' || c == b'\\'

-- `find_first_of`: the part before the first metacharacter, and what follows.
unfoldable pub split_prefix : Bytes → Bytes × Bytes
split_prefix [] = ([], [])
split_prefix (c ∷ cs) =
    let rest = split_prefix cs in if is_meta c then ([], c ∷ cs) else (c ∷ rest.0, rest.1)

-- `substr`.
unfoldable pub take_bytes : ℕ → Bytes → Bytes
take_bytes zero s = []
take_bytes (suc n) [] = []
take_bytes (suc n) (c ∷ cs) = c ∷ take_bytes n cs

unfoldable pub drop_bytes : ℕ → Bytes → Bytes
drop_bytes zero s = s
drop_bytes (suc n) [] = []
drop_bytes (suc n) (c ∷ cs) = drop_bytes n cs

unfoldable pub substr : Bytes → ℕ → ℕ → Bytes
substr s from size = take_bytes size (drop_bytes from s)

pub record BraceExpansion : Type 0 where
  pub start : ℕ
  pub size : ℕ
  pub terms : List Bytes

-- The brace that is open, and where its term begins.
pub record OpenBrace : Type 0 where
  pub start : ℕ
  pub terms : List Bytes
  pub term_begin : ℕ

unfoldable pub longer : ℕ → Parsed ℕ → Parsed ℕ
longer n (done k) = done (n + k)
longer n (invalid e) = invalid e
longer n outside = outside
longer n out_of_fuel = out_of_fuel

-- The loop over a bracket, which ends at its `]`: the number of bytes before it.
unfoldable pub skip_bracket : Bytes → Parsed ℕ
skip_bracket [] = invalid "Invalid glob pattern, unmatched '['"
skip_bracket (c ∷ []) =
    if c == b']'
    then done 0
    else if c == b'\\'
    then outside
    else invalid "Invalid glob pattern, unmatched '['"
skip_bracket (c ∷ d ∷ cs) =
    let escaped = skip_bracket cs in
    let plain = skip_bracket (d ∷ cs) in
    if c == b']' then done 0 else if c == b'\\' then longer 2 escaped else longer 1 plain

-- The variables of the loop of `parseBraceExpansions`; `rest` is the text from `i`.
pub record Scan : Type 0 where
  pub i : ℕ
  pub rest : Bytes
  pub current : Option OpenBrace
  pub braces : List BraceExpansion

-- A byte without a role.
abbrev pub pass : ℕ → Bytes → Scan → Scan
pass n rest st = record st { i = st.i + n; rest = rest }

-- Behind a bracket, whose `]` is the byte after the first `k` of `rest`.
unfoldable pub past_bracket : Parsed ℕ → ℕ → Bytes → Scan → Parsed Scan
past_bracket (done k) n rest st = done (pass (n + k + 1) (drop_bytes (k + 1) rest) st)
past_bracket (invalid e) n rest st = invalid e
past_bracket outside n rest st = outside
past_bracket out_of_fuel n rest st = out_of_fuel

unfoldable pub scan_bracket : Bytes → Scan → Parsed Scan
scan_bracket [] st = outside
scan_bracket (d ∷ ds) st =
    if d == b']'
    then past_bracket (skip_bracket ds) 2 ds st
    else past_bracket (skip_bracket (d ∷ ds)) 1 (d ∷ ds) st

unfoldable pub scan_open : Option OpenBrace → Bytes → Scan → Parsed Scan
scan_open (some b) cs st = invalid "Nested brace expansions are not supported"
scan_open none cs st = done (record (pass 1 cs st) {
  current = some (record { start = st.i; terms = []; term_begin = st.i + 1 });
})

-- The text of the term that ends at `i`.
abbrev pub term_at : Bytes → OpenBrace → ℕ → Bytes
term_at s b i = substr s b.term_begin (i - b.term_begin)

unfoldable pub scan_comma : Bytes → Option OpenBrace → Bytes → Scan → Parsed Scan
scan_comma s none cs st = done (pass 1 cs st)
scan_comma s (some b) cs st = done (record (pass 1 cs st) {
  current = some (record b { terms = b.terms ++ (term_at s b st.i ∷ []); term_begin = st.i + 1 });
})

unfoldable pub scan_close : Bytes → Option OpenBrace → Bytes → Scan → Parsed Scan
scan_close s none cs st = done (pass 1 cs st)
scan_close s (some b) cs st =
    if length b.terms == 0 && st.i - b.term_begin == 0
    then invalid "Empty brace expression is not supported"
    else done (record (pass 1 cs st) {
      current = none;
      braces =
          st.braces
          ++ (record {
            start = b.start;
            size = st.i - b.start + 1;
            terms = b.terms ++ (term_at s b st.i ∷ []);
          }
              ∷ []);
    })

unfoldable pub scan_escape : Bytes → Scan → Parsed Scan
scan_escape [] st = invalid "Invalid glob pattern, stray '\\'"
scan_escape (d ∷ ds) st = done (pass 2 ds st)

-- The body of the loop at the byte `c`, with the bytes behind it.
unfoldable pub scan_step : Bytes → ℕ → Bytes → Scan → Parsed Scan
scan_step s c cs st =
    if c == b'['
    then scan_bracket cs st
    else if c == b'{'
    then scan_open st.current cs st
    else if c == b','
    then scan_comma s st.current cs st
    else if c == b'}'
    then scan_close s st.current cs st
    else if c == b'\\'
    then scan_escape cs st
    else done (pass 1 cs st)

-- What follows the loop.
unfoldable pub finish : Option OpenBrace → List BraceExpansion → Parsed (List BraceExpansion)
finish none braces = done braces
finish (some b) braces = invalid "Incomplete brace expansion"

unfoldable pub go_on :
    (Scan → Parsed (List BraceExpansion)) → Parsed Scan → Parsed (List BraceExpansion)
go_on next (done st) = next st
go_on next (invalid e) = invalid e
go_on next outside = outside
go_on next out_of_fuel = out_of_fuel

unfoldable pub scan : ℕ → Bytes → Scan → Parsed (List BraceExpansion)
scan zero s st = out_of_fuel
scan (suc f) s st = elim st.rest [
  | [] ↦ finish st.current st.braces
  | c ∷ cs ↦ go_on (scan f s) (scan_step s c cs st)
]

abbrev pub size_max : ℕ
size_max = u64 - 1

unfoldable pub count_patterns : List BraceExpansion → ℕ → ℕ
count_patterns [] n = n
count_patterns (b ∷ bs) n =
    let rest = count_patterns bs ((n * length b.terms) % u64) in
    if ltb (size_max / length b.terms) n then size_max else rest

-- `replace` of the brace in a pattern by a term.
unfoldable pub put_term : BraceExpansion → Bytes → Bytes → Bytes
put_term b term orig = take_bytes b.start orig ++ (term ++ drop_bytes (b.start + b.size) orig)

-- The two inner loops, and the outer one, which goes from the last brace to the first.
unfoldable pub put_terms : BraceExpansion → List Bytes → List Bytes → List Bytes
put_terms b [] origs = []
put_terms b (t ∷ ts) origs = map (put_term b t) origs ++ put_terms b ts origs

unfoldable pub expand_braces : List BraceExpansion → List Bytes → List Bytes
expand_braces [] subpatterns = subpatterns
expand_braces (b ∷ bs) subpatterns = put_terms b b.terms (expand_braces bs subpatterns)

-- Behind the loop.
unfoldable pub subpatterns_of : Bytes → ℕ → Parsed (List BraceExpansion) → Parsed (List Bytes)
subpatterns_of s limit (done braces) =
    if ltb limit (count_patterns braces 1)
    then invalid "Too many brace expansions"
    else done (expand_braces braces (s ∷ []))
subpatterns_of s limit (invalid e) = invalid e
subpatterns_of s limit outside = outside
subpatterns_of s limit out_of_fuel = out_of_fuel

unfoldable pub parse_brace_expansions : Bytes → ℕ → Parsed (List Bytes)
parse_brace_expansions s limit =
    if limit == 0 || not (contains s b'{')
    then done (s ∷ [])
    else subpatterns_of s limit
        (scan (suc (length s)) s (record { i = 0; rest = s; current = none; braces = [] }))
