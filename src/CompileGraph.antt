-- ===== src/CompileGraph.antt =====
-- The compilation graph of the server, src/server/compiler/compile_graph.{h,cpp}.
pub mod State
pub mod Interest
pub mod Update
pub mod WaitCycle
pub mod Task
pub mod Run
mod Samples
