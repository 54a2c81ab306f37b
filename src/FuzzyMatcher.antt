-- ===== src/FuzzyMatcher.antt =====
-- src/support/fuzzy_matcher.cpp: the characters of a pattern or a word, their types and roles, and
-- the data of the matcher. A byte is a number below 256; `outside` is what the lookup of a type reads
-- for a byte over 127, since `char` is signed and its index is then before the table.
pub mod Score
pub mod Graph
mod Roles
mod Subsequence
mod Bonus
mod Alignment
mod Optimal
mod Table
mod Match
mod Exact
mod Samples
use clice.Base.{
  ℕ, zero, suc, ◌+◌, ◌*◌, ◌/◌, ◌%◌, ◌^◌, Bool, true, false, not, ◌&&◌, ◌||◌, List, [], ◌∷◌, map,
  length, if◌then◌else◌, ltb, leb, ◌==◌, nat_equality,
}

pub data CharType : Type 0 where
  empty lower_case upper_case punctuation : CharType

pub data CharRole : Type 0 where
  unknown tail head separator : CharRole

abbrev pub Bytes : Type 0
Bytes = List ℕ

-- An element of an array that the source indexes within its bounds.
unfoldable pub nth {ℓ} : {A : Type ℓ} → A → List A → ℕ → A
nth d [] i = d
nth d (x ∷ xs) zero = x
nth d (x ∷ xs) (suc i) = nth d xs i

unfoldable pub truncate {ℓ} : {A : Type ℓ} → ℕ → List A → List A
truncate zero xs = []
truncate (suc n) [] = []
truncate (suc n) (x ∷ xs) = x ∷ truncate n xs

unfoldable pub lower : ℕ → ℕ
lower c = if leb 65 c && leb c 90 then c + 32 else c

-- The casts from and to the enumerations.
unfoldable pub type_of_code : ℕ → CharType
type_of_code zero = empty
type_of_code (suc zero) = lower_case
type_of_code (suc (suc zero)) = upper_case
type_of_code (suc (suc (suc n))) = punctuation

unfoldable pub code : CharType → ℕ
code empty = 0
code lower_case = 1
code upper_case = 2
code punctuation = 3

unfoldable pub role_of_code : ℕ → CharRole
role_of_code zero = unknown
role_of_code (suc zero) = tail
role_of_code (suc (suc zero)) = head
role_of_code (suc (suc (suc n))) = separator

-- Two bits of a table of bytes.
unfoldable pub packed_lookup : List ℕ → ℕ → ℕ
unfolding nth
packed_lookup table i = nth 0 table (i / 4) / 4 ^ (i % 4) % 4

-- The half of `CharTypes` for the bytes below 128.
abbrev pub char_types : List ℕ
char_types =
    0 ∷ 0 ∷ 0 ∷ 0 ∷ 0 ∷ 0 ∷ 0 ∷ 0 ∷ 255 ∷ 255 ∷ 255 ∷ 255 ∷ 85 ∷ 85 ∷ 245 ∷ 255 ∷ 171 ∷ 170 ∷ 170
    ∷ 170 ∷ 170 ∷ 170 ∷ 234 ∷ 255 ∷ 87 ∷ 85 ∷ 85 ∷ 85 ∷ 85 ∷ 85 ∷ 213 ∷ 63 ∷ []

abbrev pub char_roles : List ℕ
char_roles = 0 ∷ 170 ∷ 170 ∷ 255 ∷ 0 ∷ 85 ∷ 170 ∷ 255 ∷ 0 ∷ 85 ∷ 89 ∷ 255 ∷ 0 ∷ 170 ∷ 170 ∷ 255 ∷ []

-- The window of three types: `((types << 2) | T) & 0x3f`.
unfoldable pub rotate : ℕ → CharType → ℕ
unfolding code
rotate types t = (types * 4 + code t) % 64

unfoldable pub role_at : ℕ → CharRole
unfolding packed_lookup role_of_code
role_at types = role_of_code (packed_lookup char_roles types)

-- The types that were met, a bit for each.
pub record TypeSet : Type 0 where
  pub has_empty : Bool
  pub has_lower : Bool
  pub has_upper : Bool
  pub has_punctuation : Bool

abbrev pub no_types : TypeSet
no_types = record {
  has_empty = false;
  has_lower = false;
  has_upper = false;
  has_punctuation = false;
}

unfoldable pub with_type : CharType → TypeSet → TypeSet
with_type empty s = record s { has_empty = true }
with_type lower_case s = record s { has_lower = true }
with_type upper_case s = record s { has_upper = true }
with_type punctuation s = record s { has_punctuation = true }

unfoldable pub only_lower : TypeSet → Bool
only_lower s = s.has_lower && not (s.has_empty || s.has_upper || s.has_punctuation)

unfoldable pub only_upper : TypeSet → Bool
only_upper s = s.has_upper && not (s.has_empty || s.has_lower || s.has_punctuation)

module _ (outside : ℕ → CharType) where
  unfoldable pub char_type : ℕ → CharType
  unfolding packed_lookup type_of_code
  char_type c = if ltb c 128 then type_of_code (packed_lookup char_types c) else outside c

  -- The loop, and the last character behind it.
  unfoldable pub roles_loop : ℕ → Bytes → List CharRole
  unfolding rotate role_at char_type
  roles_loop types [] = role_at (rotate types empty) ∷ []
  roles_loop types (c ∷ cs) =
      let slid = rotate types (char_type c) in role_at slid ∷ roles_loop slid cs

  unfoldable pub calculate_roles : Bytes → List CharRole
  unfolding roles_loop code char_type
  calculate_roles [] = []
  calculate_roles (c ∷ cs) = roles_loop (code (char_type c)) cs

  -- What `calculate_roles` returns.
  unfoldable pub type_set : Bytes → TypeSet
  unfolding with_type char_type
  type_set [] = no_types
  type_set (c ∷ cs) = with_type (char_type c) (type_set cs)

-- `Pat` or `word` with the arrays beside it.
pub record Text : Type 0 where
  pub bytes : Bytes
  pub low : Bytes
  pub roles : List CharRole
  pub types : TypeSet

abbrev pub size : Text → ℕ
size t = length t.bytes

abbrev pub max_pat : ℕ
max_pat = 63

abbrev pub max_word : ℕ
max_word = 127

unfoldable pub segment : (ℕ → CharType) → Bytes → Text
segment outside s = record {
  bytes = s;
  low = map lower s;
  roles = calculate_roles outside s;
  types = type_set outside s;
}

-- The subsequence check of `init`, on the lowered texts.
unfoldable pub is_subsequence : (pattern word : Bytes) → Bool
is_subsequence [] ws = true
is_subsequence (p ∷ ps) [] = false
is_subsequence (p ∷ ps) (w ∷ ws) =
    let taken = is_subsequence ps ws in
    let skipped = is_subsequence (p ∷ ps) ws in if w == p then taken else skipped

-- `init`: its answer. The word is cut to its bound first.
unfoldable pub init : Text → Bytes → Bool
unfolding truncate is_subsequence
init pattern new_word =
    let word = truncate max_word new_word in
    if ltb (length word) (size pattern)
    then false
    else if size pattern == 0
    then true
    else is_subsequence pattern.low (map lower word)
