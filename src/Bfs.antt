-- ===== src/Bfs.antt =====
-- The software model of the accelerator, bfs/graph.h, bfs/graph.cpp and bfs/bfs.cpp.
pub mod Csr
pub mod Graph
pub mod CsrBuild
pub mod Stats
pub mod Depth
pub mod Advance
pub mod Shortest
pub mod Levels
pub mod Loop
pub mod TopDown
pub mod BottomUp
pub mod Params
pub mod Hybrid
pub mod Basic
pub mod Cache
pub mod Agree
pub mod Checked
pub mod Examples
