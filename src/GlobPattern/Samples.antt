-- ===== src/GlobPattern/Samples.antt =====
-- The theorems on glob patterns (src/support/glob_pattern.cpp) at the pattern "a{b,c}" and at a path.
use clice.Base.{◌≡◌, refl, [], ◌∷◌, arith, contains, nat_equality}
use clice.GlobPattern.{
  Bytes, done, parse_brace_expansions, rejects_slash, subpatterns_of, scan, scan_step, scan_open,
  scan_comma, scan_close, finish, go_on, substr, take_bytes, drop_bytes, count_patterns,
  expand_braces, put_terms, put_term,
}
use clice.GlobPattern.Fuel.{Ended, parse_brace_expansions-Ended}
use clice.GlobPattern.Count.{Counted, braces_of, parse_brace_expansions-Counted}
use clice.GlobPattern.Prefix.{rejects_slash-contains}

abbrev choice : Bytes
choice = b'a' ∷ b'{' ∷ b'b' ∷ b',' ∷ b'c' ∷ b'}' ∷ []

expanded : parse_brace_expansions choice 100 ≡ done ((b'a' ∷ b'b' ∷ []) ∷ (b'a' ∷ b'c' ∷ []) ∷ [])
unfolding parse_brace_expansions contains subpatterns_of scan scan_step scan_open scan_comma
    scan_close finish go_on substr take_bytes drop_bytes count_patterns expand_braces put_terms
    put_term
expanded = refl

ended_example : Ended (parse_brace_expansions choice 100)
ended_example = parse_brace_expansions-Ended choice 100 (refl, refl)

counted_example : Counted 100 (braces_of choice) (parse_brace_expansions choice 100)
unfolding contains
counted_example = parse_brace_expansions-Counted choice 100 (omega arith) (omega arith) refl

-- The path "a/b", which has no repeated slash, without its first byte.
abbrev behind_first : Bytes
behind_first = b'/' ∷ b'b' ∷ []

rejects_slash_example : rejects_slash 0 0 (b'a' ∷ behind_first) ≡ contains behind_first b'/'
rejects_slash_example = rejects_slash-contains b'a' behind_first (omega arith)
