-- ===== src/RelationKind.antt =====
-- src/semantic/relation_kind.h: the kinds of relations between symbols, and their classes.
mod Samples
use clice.Base.{
  ℕ, ◌≡◌, refl, Bool, true, false, ◌||◌, List, [], ◌∷◌, contains, if◌then◌else◌, ◌==◌, nat_equality,
  nat_beq_iff, arith, ◌+◌,
}

pub data RelationKind : Type 0 where
  invalid declaration definition reference weak_reference read write interface implementation
        type_definition base derived constructor_of destructor caller callee :
      RelationKind

-- `RelationKind::value`.
unfoldable pub value : RelationKind → ℕ
value invalid = 0
value declaration = 1
value definition = 2
value reference = 3
value weak_reference = 4
value read = 5
value write = 6
value interface = 7
value implementation = 8
value type_definition = 9
value base = 10
value derived = 11
value constructor_of = 12
value destructor = 13
value caller = 14
value callee = 15

-- `operator==`, and `operator&`, which compares in the same way.
unfoldable pub same_kind : RelationKind → RelationKind → Bool
unfolding value
same_kind a b = value a == value b

unfoldable pub is_one_of : RelationKind → List RelationKind → Bool
unfolding same_kind
is_one_of k [] = false
is_one_of k (x ∷ xs) = same_kind k x || is_one_of k xs

unfoldable pub is_decl_or_def : RelationKind → Bool
unfolding is_one_of
is_decl_or_def k = is_one_of k (declaration ∷ definition ∷ [])

unfoldable pub is_reference : RelationKind → Bool
unfolding is_one_of
is_reference k = is_one_of k (reference ∷ weak_reference ∷ [])

unfoldable pub is_between_symbol : RelationKind → Bool
unfolding is_one_of
is_between_symbol k = is_one_of k (
    interface ∷ implementation ∷ type_definition ∷ base ∷ derived ∷ constructor_of ∷ destructor
    ∷ [])

unfoldable pub is_call : RelationKind → Bool
unfolding is_one_of
is_call k = is_one_of k (caller ∷ callee ∷ [])

-- `b` as a number.
unfoldable pub one : Bool → ℕ
one b = if b then 1 else 0

-- The four classes of relation kinds are disjoint: a kind is in at most one of them, and in none
-- exactly when it is invalid or a read or a write access.
pub classes_disjoint :
    (k : RelationKind)
    → one (is_decl_or_def k) + one (is_reference k) + one (is_between_symbol k) + one (is_call k)
      ≡ (if is_one_of k (invalid ∷ read ∷ write ∷ []) then 0 else 1)
unfolding one is_decl_or_def is_reference is_between_symbol is_call is_one_of
classes_disjoint invalid = refl
classes_disjoint declaration = refl
classes_disjoint definition = refl
classes_disjoint reference = refl
classes_disjoint weak_reference = refl
classes_disjoint read = refl
classes_disjoint write = refl
classes_disjoint interface = refl
classes_disjoint implementation = refl
classes_disjoint type_definition = refl
classes_disjoint base = refl
classes_disjoint derived = refl
classes_disjoint constructor_of = refl
classes_disjoint destructor = refl
classes_disjoint caller = refl
classes_disjoint callee = refl
