-- ===== src/DependencyGraph/Combined/Flags.antt =====
-- src/syntax/dependency_graph.cpp: the entries of a list by their index, and the flag of a file in the union.
use mathlib.Core.Bool.{false≢true}
use clice.Base.{
  ℕ, zero, suc, ◌+◌, ◌%◌, ◌^◌, ◌<◌, ◌≡◌, refl, Bool, true, false, not, ◌&&◌, ◌||◌, Option, none,
  some, List, [], ◌∷◌, ◌++◌, map, contains, length, if◌then◌else◌, ltb, ◌==◌, nat_equality,
  nat_beq_iff, arith,
}
use clice.DependencyGraph.{path_of, is_conditional, set_at}

unfoldable pub entry_at : ℕ → List ℕ → Option ℕ
entry_at i [] = none
entry_at zero (x ∷ xs) = some x
entry_at (suc i) (x ∷ xs) = entry_at i xs

pub entry_at-last :
    (i : ℕ) (xs : List ℕ) (y : ℕ)
    → entry_at i (xs ++ (y ∷ []))
      ≡ (if ltb i (length xs) then entry_at i xs else if i == length xs then some y else none)
unfolding entry_at
entry_at-last zero [] y = refl
entry_at-last (suc i) [] y = ground arith
entry_at-last zero (x ∷ xs) y = ground arith
entry_at-last (suc i) (x ∷ xs) y = ground (arith, entry_at-last i xs y)

pub entry_at-set_at :
    (i j y : ℕ) (xs : List ℕ)
    → i < length xs
    → entry_at j (set_at i y xs) ≡ (if i == j then some y else entry_at j xs)
unfolding entry_at set_at
entry_at-set_at i j y [] l = absurd (omega arith)
entry_at-set_at zero zero y (x ∷ xs) l = refl
entry_at-set_at zero (suc j) y (x ∷ xs) l = ground arith
entry_at-set_at (suc i) zero y (x ∷ xs) l = ground arith
entry_at-set_at (suc i) (suc j) y (x ∷ xs) l =
    ground (arith, entry_at-set_at i j y xs (omega arith))

pub entry_at-length : (i x : ℕ) (xs : List ℕ) → entry_at i xs ≡ some x → i < length xs
unfolding entry_at
entry_at-length i x [] h = ground (arith, h)
entry_at-length zero x (y ∷ xs) h = omega arith
entry_at-length (suc i) x (y ∷ xs) h = omega (arith, entry_at-length i x xs h)

pub length-set_at : (i y : ℕ) (xs : List ℕ) → length (set_at i y xs) ≡ length xs
unfolding set_at
length-set_at i y [] = refl
length-set_at zero y (x ∷ xs) = refl
length-set_at (suc i) y (x ∷ xs) = omega (arith, length-set_at i y xs)

-- Some include of the file is not in a conditional.
unfoldable pub unconditional : List ℕ → ℕ → Bool
unconditional [] r = false
unconditional (id ∷ ids) r = (path_of id == r && not (is_conditional id)) || unconditional ids r

-- The file with the flag that it has in the union.
unfoldable pub mark : List ℕ → ℕ → ℕ
mark ids r = if unconditional ids r then r else r + 2 ^ 31

abbrev pub includes_file : List ℕ → ℕ → Bool
includes_file ids r = contains (map path_of ids) r

pub includes_file-last :
    (ids : List ℕ) (id r : ℕ)
    → includes_file (ids ++ (id ∷ [])) r ≡ (includes_file ids r || path_of id == r)
unfolding contains
includes_file-last [] id r = ground arith
includes_file-last (x ∷ ids) id r = ground (arith, includes_file-last ids id r)

pub unconditional-last :
    (ids : List ℕ) (id r : ℕ)
    → unconditional (ids ++ (id ∷ [])) r
      ≡ (unconditional ids r || (path_of id == r && not (is_conditional id)))
unfolding unconditional
unconditional-last [] id r = ground arith
unconditional-last (x ∷ ids) id r = ground (arith, unconditional-last ids id r)

pub unconditional_included :
    (ids : List ℕ) (r : ℕ) → unconditional ids r ≡ true → includes_file ids r ≡ true
unfolding unconditional contains
unconditional_included [] r h = h
unconditional_included (x ∷ ids) r h = ground (arith, unconditional_included ids r)

pub included_bound : (ids : List ℕ) (r : ℕ) → includes_file ids r ≡ true → r < 2 ^ 31
unfolding contains path_of
included_bound [] r h = absurd (false≢true h)
included_bound (x ∷ ids) r h = ground (arith, included_bound ids r, nat_beq_iff (x % 2 ^ 31) r)

pub path_of-mark : (ids : List ℕ) (r : ℕ) → r < 2 ^ 31 → path_of (mark ids r) ≡ r
unfolding path_of mark
path_of-mark ids r l = ground (arith, l)

-- What a variable of 32 bits is made of.
pub id-flag :
    (id : ℕ) → id < 2 ^ 32 → id ≡ (if is_conditional id then path_of id + 2 ^ 31 else path_of id)
unfolding is_conditional path_of
id-flag id l = ground arith
