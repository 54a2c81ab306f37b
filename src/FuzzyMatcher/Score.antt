-- ===== src/FuzzyMatcher/Score.antt =====
-- src/support/fuzzy_matcher.cpp: the tests and the points of a single step of a match. A C++ `int` x
-- is kept as the number `int_zero + x`; every value of the matcher is far above -2^16.
use clice.Base.{
  ℕ, ◌+◌, ◌-◌, ◌%◌, ◌^◌, Bool, true, false, not, ◌&&◌, ◌||◌, if◌then◌else◌, ltb, ◌==◌, nat_equality,
}
use clice.FuzzyMatcher.{CharRole, unknown, tail, head, separator, Text, nth, only_lower, only_upper}

abbrev pub int_zero : ℕ
int_zero = 65536

-- AwfulScore, -(1 << 13).
abbrev pub awful : ℕ
awful = 57344

-- Below half of it.
unfoldable pub is_awful : ℕ → Bool
is_awful s = ltb s 61440

abbrev pub perfect_bonus : ℕ
perfect_bonus = 4

-- A value written to the 15-bit field and read back.
unfoldable pub field : ℕ → ℕ
field v = (v + 2 ^ 14) % 2 ^ 15 + (int_zero - 2 ^ 14)

-- How the last character of the word was used.
pub data Action : Type 0 where
  miss matched : Action

unfoldable pub is_match : Action → Bool
is_match miss = false
is_match matched = true

unfoldable pub is_head : CharRole → Bool
is_head head = true
is_head tail = false
is_head unknown = false
is_head separator = false

unfoldable pub is_tail : CharRole → Bool
is_tail tail = true
is_tail head = false
is_tail unknown = false
is_tail separator = false

unfoldable pub role_in : Text → ℕ → CharRole
unfolding nth
role_in t i = nth unknown t.roles i

unfoldable pub allow_match : (pattern word : Text) → ℕ → ℕ → Action → Bool
unfolding nth is_match is_tail role_in
allow_match pattern word p w last =
    if nth 0 pattern.low p == nth 0 word.low w
    then (if not (is_match last)
          && is_tail (role_in word w)
          && (nth 0 word.bytes w == nth 0 word.low w || not word.types.has_lower)
        then false
        else true)
    else false

unfoldable pub skip_penalty : Text → ℕ → ℕ
unfolding is_head role_in
skip_penalty word w = if w == 0 then 3 else if is_head (role_in word w) then 1 else 0

-- The statements of `match_bonus`, in their order, on the variable `S`.
unfoldable pub match_bonus : (pattern word : Text) → ℕ → ℕ → Action → ℕ
unfolding nth is_match is_head is_tail role_in only_lower only_upper
match_bonus pattern word p w last =
    let single_case = only_lower pattern.types || only_upper pattern.types in
    let inside = is_tail (role_in word w) in
    let s0 = int_zero + 1 in
    let s1 =
      if nth 0 pattern.bytes p == nth 0 word.bytes w
        || (is_head (role_in word w) && (single_case || is_head (role_in pattern p)))
      then s0 + 1
      else s0 in
    let s2 = if w == 0 || is_match last then s1 + 2 else s1 in
    let s3 = if inside && not (p == 0) && not (is_match last) then s2 - 3 else s2 in
    let s4 = if is_head (role_in pattern p) && inside then s3 - 1 else s3 in
    if p == 0 && inside then s4 - 4 else s4
