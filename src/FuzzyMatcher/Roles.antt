-- ===== src/FuzzyMatcher/Roles.antt =====
-- src/support/fuzzy_matcher.cpp: the tables of types and roles against a description without tables.
use clice.Base.{
  ℕ, zero, suc, ◌+◌, ◌*◌, ◌%◌, ◌<◌, ◌≡◌, refl, ◌∙◌, ap, map, sym, subst, Bool-cases, inl, inr,
  nat_beq_iff, ◌/◌, Bool, true, ◌&&◌, ◌||◌, List, [], ◌∷◌, arith, if◌then◌else◌, ltb, leb, ◌==◌,
  nat_equality,
}
use clice.FuzzyMatcher.{
  CharType, empty, lower_case, upper_case, punctuation, CharRole, unknown, tail, head, separator,
  Bytes, code, type_of_code, packed_lookup, char_types, rotate, role_at, role_of_code, char_type,
  roles_loop, calculate_roles, nth,
}

between : ℕ → ℕ → ℕ → Bool
between a b c = leb a c && leb c b

-- The type of an ASCII character: digits count as lowercase letters.
unfoldable pub ascii_type : ℕ → CharType
unfolding between
ascii_type c =
    if ltb c 32 || c == 127
    then empty
    else (if between 48 57 c || between 97 122 c
        then lower_case
        else if between 65 90 c
        then upper_case
        else punctuation)

-- The role of a character by its type and those of its neighbours.
unfoldable pub role_of : CharType → CharType → CharType → CharRole
role_of prev empty next = unknown
role_of prev punctuation next = separator
role_of empty lower_case next = head
role_of punctuation lower_case next = head
role_of lower_case lower_case next = tail
role_of upper_case lower_case next = tail
role_of empty upper_case next = head
role_of punctuation upper_case next = head
role_of lower_case upper_case next = head
role_of upper_case upper_case lower_case = head
role_of upper_case upper_case empty = tail
role_of upper_case upper_case upper_case = tail
role_of upper_case upper_case punctuation = tail

code-lt : (t : CharType) → code t < 4
unfolding code
code-lt empty = omega arith
code-lt lower_case = omega arith
code-lt upper_case = omega arith
code-lt punctuation = omega arith

type_of_code-code : (t : CharType) → type_of_code (code t) ≡ t
unfolding code type_of_code
type_of_code-code empty = refl
type_of_code-code lower_case = refl
type_of_code-code upper_case = refl
type_of_code-code punctuation = refl

role_index : CharRole → ℕ
role_index unknown = 0
role_index tail = 1
role_index head = 2
role_index separator = 3

role_of_code-index : (r : CharRole) → role_of_code (role_index r) ≡ r
unfolding role_of_code role_index
role_of_code-index unknown = refl
role_of_code-index tail = refl
role_of_code-index head = refl
role_of_code-index separator = refl

-- A test at every number below a bound, to evaluate it on a whole table.
all_below : (ℕ → Bool) → ℕ → Bool
all_below f zero = true
all_below f (suc n) = f n && all_below f n

all_below-at : (f : ℕ → Bool) (n c : ℕ) → all_below f n ≡ true → c < n → f c ≡ true
unfolding all_below
all_below-at f zero c h l = absurd (omega arith)
all_below-at f (suc n) c h l = elim (Bool-cases (c == n)) [
  | inl e ↦ subst (λ k. f k ≡ true) (sym ((nat_beq_iff c n).0 e)) (ground arith)
  | inr e ↦ all_below-at f n c (ground arith) (ground (arith, nat_beq_iff c n))
]

same_type : ℕ → Bool
unfolding code type_of_code ascii_type packed_lookup
same_type c = code (type_of_code (packed_lookup char_types c)) == code (ascii_type c)

types_check : all_below same_type 128 ≡ true
unfolding all_below same_type code type_of_code ascii_type packed_lookup nth between
types_check = refl

same_role : ℕ → Bool
unfolding role_index role_at role_of type_of_code
same_role w =
    role_index (role_at w)
    == role_index
        (role_of (type_of_code (w / 16)) (type_of_code (w / 4 % 4)) (type_of_code (w % 4)))

roles_check : all_below same_role 64 ≡ true
unfolding all_below same_role role_index role_at role_of type_of_code packed_lookup role_of_code nth
roles_check = refl

code-injective : (s t : CharType) → code s ≡ code t → s ≡ t
code-injective s t h = sym (type_of_code-code s) ∙ ap type_of_code h ∙ type_of_code-code t

role_index-injective : (r s : CharRole) → role_index r ≡ role_index s → r ≡ s
role_index-injective r s h = sym (role_of_code-index r) ∙ ap role_of_code h ∙ role_of_code-index s

-- The lookup in the table gives each ASCII character its type.
pub char_type-ascii_type :
    (outside : ℕ → CharType) (c : ℕ) → c < 128 → char_type outside c ≡ ascii_type c
unfolding same_type char_type
char_type-ascii_type outside c l =
    code-injective (char_type outside c) (ascii_type c)
      (ground (arith, all_below-at same_type 128 c types_check l))

role_at-window :
    (w : ℕ) (prev cur next : CharType)
    → w < 64
    → w / 16 ≡ code prev
    → w / 4 % 4 ≡ code cur
    → w % 4 ≡ code next
    → role_at w ≡ role_of prev cur next
unfolding same_role
role_at-window w prev cur next below first second third =
    role_index-injective (role_at w) (role_of prev cur next) (
      let same = all_below-at same_role 64 w roles_check below in
      let told : role_index (role_at w)
          ≡ role_index
              (role_of (type_of_code (w / 16)) (type_of_code (w / 4 % 4)) (type_of_code (w % 4))) =
        ground (arith, same) in
      told
      ∙ (rw (
        first,
        second,
        third,
        type_of_code-code prev,
        type_of_code-code cur,
        type_of_code-code next,
      )))

-- The window behind one more type.
role_at-rotate :
    (types : ℕ) (prev cur next : CharType)
    → types % 16 ≡ code prev * 4 + code cur
    → role_at (rotate types next) ≡ role_of prev cur next
unfolding rotate
role_at-rotate types prev cur next h =
    role_at-window (rotate types next) prev cur next (omega arith)
      (omega (arith, code-lt cur, code-lt next)) (omega (arith, code-lt cur, code-lt next))
      (omega (arith, code-lt next))

rotate-mod :
    (types : ℕ) (prev cur next : CharType)
    → types % 16 ≡ code prev * 4 + code cur
    → rotate types next % 16 ≡ code cur * 4 + code next
unfolding rotate
rotate-mod types prev cur next h = omega (arith, code-lt cur, code-lt next)

-- The roles by the types of the characters, the end of the text being empty.
unfoldable pub roles_by : CharType → CharType → List CharType → List CharRole
unfolding role_of
roles_by prev cur [] = role_of prev cur empty ∷ []
roles_by prev cur (next ∷ ts) = role_of prev cur next ∷ roles_by cur next ts

unfoldable pub segmentation : List CharType → List CharRole
unfolding roles_by
segmentation [] = []
segmentation (t ∷ ts) = roles_by empty t ts

roles_loop-roles_by :
    (outside : ℕ → CharType) (types : ℕ) (prev cur : CharType) (cs : Bytes)
    → types % 16 ≡ code prev * 4 + code cur
    → roles_loop outside types cs ≡ roles_by prev cur (map (char_type outside) cs)
unfolding roles_loop roles_by
roles_loop-roles_by outside types prev cur [] h =
    ap (λ r. r ∷ []) (role_at-rotate types prev cur empty h)
roles_loop-roles_by outside types prev cur (c ∷ cs) h =
    let next = char_type outside c in
    let slid = rotate types next in
    ap (λ r. r ∷ roles_loop outside slid cs) (role_at-rotate types prev cur next h)
    ∙ ap (λ rs. role_of prev cur next ∷ rs)
        (roles_loop-roles_by outside slid cur next cs (rotate-mod types prev cur next h))

empty_window : (t : CharType) → code t % 16 ≡ code empty * 4 + code t
unfolding code
empty_window t = omega (arith, code-lt t)

-- calculate_roles gives each character the role that its type and those of its neighbours have by the
-- description.
pub calculate_roles-segmentation :
    (outside : ℕ → CharType) (text : Bytes)
    → calculate_roles outside text ≡ segmentation (map (char_type outside) text)
unfolding calculate_roles segmentation
calculate_roles-segmentation outside [] = refl
calculate_roles-segmentation outside (c ∷ cs) =
    let t = char_type outside c in roles_loop-roles_by outside (code t) empty t cs (empty_window t)
