-- ===== src/DependencyGraph/Samples.antt =====
-- The theorems on the include graph (src/syntax/dependency_graph.cpp) at a small workspace: file 1
-- includes 2 and 3, file 4 includes 2 in one configuration and, in a conditional, 3 in another.
use clice.Base.{
  some, Bool, false, ◌&&◌, Option, List, if◌then◌else◌, none, ℕ, ◌≡◌, ◌↔◌, refl, true, [], ◌∷◌,
  arith, contains, NodupKeys, nat_equality, lookup, insert, nat_beq,
}
use clice.DependencyGraph.{
  DependencyGraph, key_equality, same_key, empty_graph, set_includes, build_reverse_map,
  get_includers, find_host_sources, find_include_chain, get_all_includes, get_includes, vector_of,
}
use clice.DependencyGraph.Reverse.{Includes, build_reverse_map-Includes}
use clice.DependencyGraph.Chain.{Answered as ChainAnswered, find_include_chain-Answered}
use clice.DependencyGraph.Hosts.{Answered, find_host_sources-Hosts}
use clice.DependencyGraph.Combined.Entry.{Words}
use clice.DependencyGraph.Combined.{UnionOf, all_of, get_all_includes-UnionOf}

abbrev workspace : DependencyGraph
workspace =
    set_includes 1 0 (2 ∷ 3 ∷ [])
      (set_includes 4 7 (2147483651 ∷ 2 ∷ []) (set_includes 4 6 (3 ∷ []) empty_graph))

workspace-NodupKeys : NodupKeys workspace.includes
unfolding set_includes insert lookup same_key
workspace-NodupKeys = (refl, (refl, (refl, tt)))

build_reverse_map_example :
    (contains (get_includers 3 (build_reverse_map workspace)) 4 ≡ true) ↔ Includes workspace 4 3
build_reverse_map_example = build_reverse_map-Includes workspace 3 4 workspace-NodupKeys

find_host_sources_example :
    Answered (build_reverse_map workspace) 3 (find_host_sources 3 (build_reverse_map workspace))
find_host_sources_example = find_host_sources-Hosts 3 (build_reverse_map workspace)

Words-if :
    (b : Bool) (x y : Option (List ℕ))
    → Words (vector_of x)
    → Words (vector_of y)
    → Words (vector_of (if b then x else y))
Words-if true x y h k = h
Words-if false x y h k = k

workspace-Words : (path c : ℕ) → Words (get_includes path c workspace)
unfolding get_includes set_includes vector_of insert lookup same_key
workspace-Words path c =
    Words-if (nat_beq 4 path && nat_beq 6 c) (some (3 ∷ [])) _ (omega arith, tt)
      (Words-if (nat_beq 4 path && nat_beq 7 c) (some (2147483651 ∷ 2 ∷ [])) _
        (omega arith, (omega arith, tt))
        (Words-if (nat_beq 1 path && nat_beq 0 c) (some (2 ∷ 3 ∷ [])) none
          (omega arith, (omega arith, tt)) tt))

get_all_includes_example :
    UnionOf
      (all_of 4 (vector_of (lookup 4 workspace.file_configs)) workspace)
      (get_all_includes 4 workspace)
get_all_includes_example = get_all_includes-UnionOf 4 workspace (workspace-Words 4)

find_include_chain_example : ChainAnswered workspace 4 2 (find_include_chain 4 2 workspace)
find_include_chain_example = find_include_chain-Answered workspace 4 2 workspace-Words
