-- ===== src/RelationKind/Samples.antt =====
-- The classes of relation kinds (src/semantic/relation_kind.h) at a kind.
use clice.Base.{◌+◌, ◌≡◌, [], ◌∷◌, if◌then◌else◌}
use clice.RelationKind.{
  definition, invalid, read, write, is_one_of, is_decl_or_def, is_reference, is_between_symbol,
  is_call, one, classes_disjoint,
}

classes_disjoint_example :
    one (is_decl_or_def definition)
      + one (is_reference definition)
      + one (is_between_symbol definition)
      + one (is_call definition)
    ≡ (if is_one_of definition (invalid ∷ read ∷ write ∷ []) then 0 else 1)
classes_disjoint_example = classes_disjoint definition
