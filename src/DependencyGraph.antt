-- ===== src/DependencyGraph.antt =====
-- src/syntax/dependency_graph.{h,cpp}: the include graph of a workspace, its reverse edges and its
-- modules. A path and a search configuration are 32-bit numbers; bit 31 of an included path marks an
-- include inside a conditional.
mod Reverse
mod Combined
mod Hosts
mod Chain
mod Samples
use mathlib.Core.Option
use clice.Base.{
  ℕ, zero, suc, ◌+◌, ◌/◌, ◌%◌, ◌^◌, ◌≡◌, ◌↔◌, Bool, true, false, not, ◌&&◌, Option, none, some,
  List, [], ◌∷◌, ◌++◌, map, Table, keys, lookup, insert, length, contains, if◌then◌else◌, Equality,
  ◌==◌, nat_equality, nat_beq_iff, string_equality, String, arith,
}

pub record IncludeKey : Type 0 where
  pub path_id : ℕ
  pub config_id : ℕ

unfoldable pub same_key : IncludeKey → IncludeKey → Bool
same_key a b = a.path_id == b.path_id && a.config_id == b.config_id

pub same_key_iff : (a b : IncludeKey) → (same_key a b ≡ true) ↔ (a ≡ b)
unfolding same_key
same_key_iff a b =
    ground (arith, nat_beq_iff a.path_id b.path_id, nat_beq_iff a.config_id b.config_id)

instance abbrev pub key_equality : Equality IncludeKey
key_equality = record { test = same_key; test_iff = same_key_iff }

pub record DependencyGraph : Type 0 where
  pub module_to_path : Table String (List ℕ)
  pub includes : Table IncludeKey (List ℕ)
  pub file_configs : Table ℕ (List ℕ)
  pub reverse_includes : Table ℕ (List ℕ)

abbrev pub empty_graph : DependencyGraph
empty_graph = record {
  module_to_path = [];
  includes = [];
  file_configs = [];
  reverse_includes = [];
}

-- `id & PATH_ID_MASK`, and `id & CONDITIONAL_FLAG`, as a test.
unfoldable pub path_of : ℕ → ℕ
path_of id = id % 2 ^ 31

unfoldable pub is_conditional : ℕ → Bool
is_conditional id = id / 2 ^ 31 % 2 == 1

-- The vector of a key, which `operator[]` makes empty first.
unfoldable pub vector_of : Option (List ℕ) → List ℕ
vector_of none = []
vector_of (some v) = v

-- `push_back` of what `find` does not find.
unfoldable pub add_new : ℕ → List ℕ → List ℕ
add_new x v = if contains v x then v else v ++ (x ∷ [])

unfoldable pub add_module : String → ℕ → DependencyGraph → DependencyGraph
add_module name path g = record g {
  module_to_path =
      insert name (add_new path (vector_of (lookup name g.module_to_path))) g.module_to_path;
}

unfoldable pub lookup_module : String → DependencyGraph → List ℕ
lookup_module name g = vector_of (lookup name g.module_to_path)

unfoldable pub set_includes : ℕ → ℕ → List ℕ → DependencyGraph → DependencyGraph
set_includes path config ids g = record g {
  includes = insert (record { path_id = path; config_id = config }) ids g.includes;
  file_configs =
      insert path (add_new config (vector_of (lookup path g.file_configs))) g.file_configs;
}

unfoldable pub get_includes : ℕ → ℕ → DependencyGraph → List ℕ
get_includes path config g =
    vector_of (lookup (record { path_id = path; config_id = config }) g.includes)

-- The variables of `get_all_includes`.
pub record Union : Type 0 where
  pub seen : Table ℕ ℕ
  pub result : List ℕ

unfoldable pub set_at : ℕ → ℕ → List ℕ → List ℕ
set_at i y [] = []
set_at zero y (x ∷ xs) = y ∷ xs
set_at (suc i) y (x ∷ xs) = x ∷ set_at i y xs

-- The body of its inner loop, and the two loops.
unfoldable pub put_include : Option ℕ → ℕ → Union → Union
put_include none id u = record {
  seen = insert (path_of id) (length u.result) u.seen;
  result = u.result ++ (id ∷ []);
}
put_include (some i) id u =
    if is_conditional id then u else record u { result = set_at i (path_of id) u.result }

unfoldable pub add_include : ℕ → Union → Union
add_include id u = put_include (lookup (path_of id) u.seen) id u

unfoldable pub add_includes : List ℕ → Union → Union
add_includes [] u = u
add_includes (id ∷ ids) u = add_includes ids (add_include id u)

unfoldable pub add_configs : ℕ → List ℕ → DependencyGraph → Union → Union
add_configs path [] g u = u
add_configs path (c ∷ cs) g u = add_configs path cs g (add_includes (get_includes path c g) u)

unfoldable pub get_all_includes : ℕ → DependencyGraph → List ℕ
get_all_includes path g =
    let start : Union = record { seen = []; result = [] } in
    let u = add_configs path (vector_of (lookup path g.file_configs)) g start in u.result

unfoldable pub edges_of : Table IncludeKey (List ℕ) → ℕ
edges_of [] = 0
edges_of ((k, ids) ∷ m) = length ids + edges_of m

abbrev pub edge_count : DependencyGraph → ℕ
edge_count g = edges_of g.includes

abbrev pub file_count : DependencyGraph → ℕ
file_count g = length g.file_configs

abbrev pub module_count : DependencyGraph → ℕ
module_count g = length g.module_to_path

-- The loops of `build_reverse_map`.
unfoldable pub add_reverse : ℕ → List ℕ → Table ℕ (List ℕ) → Table ℕ (List ℕ)
add_reverse path [] m = m
add_reverse path (id ∷ ids) m =
    add_reverse path ids (insert (path_of id) (add_new path (vector_of (lookup (path_of id) m))) m)

unfoldable pub reverse_all : Table IncludeKey (List ℕ) → Table ℕ (List ℕ) → Table ℕ (List ℕ)
reverse_all [] m = m
reverse_all ((k, ids) ∷ rest) m = reverse_all rest (add_reverse k.path_id ids m)

unfoldable pub build_reverse_map : DependencyGraph → DependencyGraph
build_reverse_map g = record g { reverse_includes = reverse_all g.includes [] }

unfoldable pub get_includers : ℕ → DependencyGraph → List ℕ
get_includers path g = vector_of (lookup path g.reverse_includes)

-- The variables of `find_host_sources`; the back of the queue is the head of the list.
pub record Search : Type 0 where
  pub queue : List ℕ
  pub visited : List ℕ
  pub result : List ℕ

unfoldable pub push_one : ℕ → Search → Search
push_one x s =
    if contains s.visited x then s else record s { queue = x ∷ s.queue; visited = x ∷ s.visited }

unfoldable pub push_new : List ℕ → Search → Search
push_new [] s = s
push_new (x ∷ xs) s = push_new xs (push_one x s)

-- The body of the loop, behind `pop_back_val`.
unfoldable pub visit : ℕ → ℕ → List ℕ → Search → Search
visit header current [] s =
    if current == header then s else record s { result = s.result ++ (current ∷ []) }
visit header current (x ∷ xs) s = push_new (x ∷ xs) s

-- The loop; `none` means that the fuel ran out.
unfoldable pub search : ℕ → ℕ → DependencyGraph → Search → Option (List ℕ)
search zero header g s = none
search (suc f) header g s = elim s.queue [
  | [] ↦ some s.result
  | c ∷ queue ↦ search f header g (visit header c (get_includers c g) (record s { queue = queue }))
]

-- Each includer is pushed once at most.
unfoldable pub all_includers : Table ℕ (List ℕ) → List ℕ
all_includers [] = []
all_includers ((k, v) ∷ m) = v ++ all_includers m

unfoldable pub find_host_sources : ℕ → DependencyGraph → Option (List ℕ)
find_host_sources header g =
    search (suc (suc (length (all_includers g.reverse_includes)))) header g
      (record { queue = header ∷ []; visited = header ∷ []; result = [] })

-- The variables of `find_include_chain`; `next_queue` is in the order of its pushes.
pub record Levels : Type 0 where
  pub prev : Table ℕ ℕ
  pub next_queue : List ℕ
  pub found : Bool

unfoldable pub put_child : Option ℕ → ℕ → ℕ → ℕ → Levels → Levels
put_child (some p) current target child l = l
put_child none current target child l =
    if child == target
    then record l { prev = insert child current l.prev; found = true }
    else record l { prev = insert child current l.prev; next_queue = l.next_queue ++ (child ∷ []) }

-- The two inner loops, which leave when the target is found.
unfoldable pub visit_children : ℕ → ℕ → List ℕ → Levels → Levels
visit_children current target [] l = l
visit_children current target (id ∷ ids) l =
    let one = put_child (lookup (path_of id) l.prev) current target (path_of id) l in
    let rest = visit_children current target ids one in if one.found then one else rest

unfoldable pub visit_level : DependencyGraph → ℕ → List ℕ → Levels → Levels
visit_level g target [] l = l
visit_level g target (current ∷ queue) l =
    let one = visit_children current target (get_all_includes current g) l in
    let rest = visit_level g target queue one in if one.found then one else rest

-- The outer loop; `none` means that the fuel ran out.
unfoldable pub walk_levels : ℕ → DependencyGraph → ℕ → List ℕ → Table ℕ ℕ → Option Levels
walk_levels zero g target queue prev = none
walk_levels (suc f) g target [] prev = some (record { prev = prev; next_queue = []; found = false })
walk_levels (suc f) g target (c ∷ queue) prev =
    let l =
      visit_level g target (c ∷ queue) (record { prev = prev; next_queue = []; found = false }) in
    let rest = walk_levels f g target l.next_queue l.prev in if l.found then some l else rest

-- `prev[node]`, which is 0 for a node that is not there.
unfoldable pub number_of : Option ℕ → ℕ
number_of none = 0
number_of (some p) = p

-- The loop that follows `prev` from the target to the host.
unfoldable pub trace : ℕ → Table ℕ ℕ → ℕ → ℕ → Option (List ℕ)
trace zero prev host node = none
trace (suc f) prev host node =
    let rest = trace f prev host (number_of (lookup node prev)) in
    if node == host then some (host ∷ []) else Option.map (λ chain. node ∷ chain) rest

unfoldable pub reversed : List ℕ → List ℕ
reversed [] = []
reversed (x ∷ xs) = reversed xs ++ (x ∷ [])

-- Behind the loop.
unfoldable pub chain_of : ℕ → ℕ → Levels → Option (List ℕ)
chain_of host target l =
    let traced = trace (suc (length l.prev)) l.prev host target in
    if l.found then Option.map reversed traced else some []

unfoldable pub all_included : Table IncludeKey (List ℕ) → List ℕ
all_included [] = []
all_included ((k, ids) ∷ m) = map path_of ids ++ all_included m

unfoldable pub chain_after : ℕ → ℕ → Option Levels → Option (List ℕ)
chain_after host target none = none
chain_after host target (some l) = chain_of host target l

-- Each level but the last finds a file that was not found before.
unfoldable pub find_include_chain : ℕ → ℕ → DependencyGraph → Option (List ℕ)
find_include_chain host target g =
    let fuel = suc (suc (length (all_included g.includes))) in
    let walked = walk_levels fuel g target (host ∷ []) (insert host host []) in
    if host == target then some (host ∷ []) else chain_after host target walked
