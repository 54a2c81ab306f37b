-- ===== src/Lib.antt =====
-- A verification library of clice, a language server for C++. It models parts of the server in C++ under
-- src/ and proves what makes them correct.
--
-- The parts and how they interact. A request of an editor makes the server compile the file. The modules
-- that the file imports are compiled first, in the order that the compilation graph keeps
-- (src/server/compiler/compile_graph.cpp). A compiled file yields the index of a translation unit, whose
-- paths and external symbols the project index takes over (src/index/project_index.cpp, over the
-- interned paths of src/support/path_pool.h), and whose file indices are merged into one index for each
-- file (src/index/merged_index.cpp). The headers that a file includes are searched in the directories of
-- its command line (src/command/search_config.cpp).
--
-- Base holds what the other files share: Boolean tests, equality as an interface, lists, association
-- lists for hash maps, and sums over their entries. A hash map is a list with one entry for a key, so
-- the order of an iteration is the order of insertion; only need_update asks for a first entry. Worklist is the loop
-- over a stack of nodes with a visited set that CompileGraph::update and CompileGraph::has_wait_cycle
-- share, with the theorem that its fuel is enough.
--
-- CompileGraph models src/server/compiler/compile_graph.{h,cpp}.
--   State     CompileUnit, the members of CompileGraph, the queries, ensure_resolved
--   Interest  acquire, release, RefGuard, zero_interest_check, cancel_round, cancel_all
--   Update    update; WaitCycle: has_wait_cycle
--   Task      spawn_unit, unit_body, the destructor of UnitGuard, await_unit
--   Run       the event loop: a step relation on the graph, the suspended tasks and the live requests
-- A coroutine is cut where it suspends: start_body is unit_body up to the wait for the dependencies,
-- finish_dispatch is what follows the dispatch, and drop_guard is the destructor that runs on every way
-- out. A shared round is a number in a table of rounds, and a cancellation source is a number in a list
-- of cancelled ones. What resolve_fn and dispatch_fn return is an argument of the step, any list and any
-- Boolean. A step may be taken in any state that allows it, so the steps contain every order of the event
-- loop; compile and compile_deps are a request with its references and the steps of its wait, and
-- shutdown is the step that closes the graph and the steps in which the frames unwind. The counters
-- are 32-bit and 64-bit with their wrap-around; rounds and sources are numbered without bound, since
-- they stand for addresses. The loops of update and has_wait_cycle run on fuel: two steps and one for
-- each push, and each unit pushes its neighbours once at most.
--
-- MergedIndex models MergedIndex::Impl and the operations of src/index/merged_index.cpp: merge,
-- remove, the two lookups, the symbols and need_update. The SHA256 of a file index is an argument of
-- merge, and the times of files are an argument of need_update. MergedIndex/Stored models serialize,
-- load_in_memory and the lookups that read the buffer, where FlatBuffers reads back what was written.
-- A bitmap is the list of its members; reference counts wrap at 2^32.
--
-- SearchConfig models the part of src/command/search_config.cpp behind the option parser: the switch over
-- the options, the concatenation of the groups and the deduplication in place, with its 32-bit indices.
-- Making a path absolute and joining a prefix are arguments.
--
-- ProjectIndex models PathPool of src/support/path_pool.h, which src/index/project_index.h repeats, and
-- ProjectIndex::merge of src/index/project_index.cpp. A path is the list of its bytes; the allocator
-- that keeps the bytes is not modelled.
--
-- CacheStore models the state of src/support/cache_store.cpp in memory: lookup, commit on every path,
-- evict_locked, invalidate and the checkpoint counters; CacheStore/Steps is the relation of the operations
-- as they follow each other under the lock, and CacheStore/Steps/Checkpoint says which changes are
-- counted for a checkpoint. The clock and what the file system answers are
-- arguments; a blob is named by its key. Sizes wrap at 2^64, as the source intends; time stamps are
-- without bound. Opening the store and scanning its directories are not modelled.
--
-- RelationKind models src/semantic/relation_kind.h.
--
-- DependencyGraph models the class of src/syntax/dependency_graph.{h,cpp}, the include graph of a
-- workspace: its modules, its includes by path and search configuration, the union of the configurations,
-- the reverse map, the search for the source files that include a header, on fuel of one step for each
-- file that it can push, and the search for a chain of includes, on fuel of one level for each file that
-- can be found. The scan that fills the graph is not modelled.
--
-- IncludeResolver models src/syntax/include_resolver.{h,cpp}, over the directories of SearchConfig: the
-- cache of directory listings, the quick rejection of a first component, the order of the directories
-- for quoted, angled and #include_next directives. The file system and the path functions of LLVM are
-- arguments, and the counters wrap at 2^64.
--
-- GlobPattern models parts of src/support/glob_pattern.cpp: the check of the prefix that GlobPattern::create
-- stores, and parseBraceExpansions, whose loop runs on fuel of one step for each byte. A read behind the
-- end of the text is a result of its own. The sets of brackets, the segments and match are not modelled.
--
-- FuzzyMatcher models src/support/fuzzy_matcher.cpp, which ranks the names of a completion: the roles of
-- characters, the subsequence check, and the table of scores, where a cell is a function of the cells
-- that the loops fill before it (Score: the points of a step, Graph: the table and match). A C++ int x is
-- the number 2^16 + x, and a field of 15 bits wraps around. A float is the fraction that it stands for.
-- Bytes over 127 are looked up before the table where char is signed; what is read there is an argument.
-- FuzzyMatcher/Alignment says what the table is about without a table, and FuzzyMatcher/Exact is the
-- table without fields of 15 bits.
--
-- Not modelled are the parts that work on the AST of clang, the transport and the worker processes, the
-- file system, logging, and the parts of src/support and src/syntax that this library does not name.
--
-- The witnesses of the theorems stand in the Samples modules.
pub mod Base
pub mod Worklist
pub mod CompileGraph
pub mod MergedIndex
pub mod SearchConfig
pub mod ProjectIndex
pub mod CacheStore
pub mod RelationKind
pub mod FuzzyMatcher
pub mod DependencyGraph
pub mod IncludeResolver
pub mod GlobPattern
