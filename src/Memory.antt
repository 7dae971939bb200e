-- ===== src/Memory.antt =====
-- The memory wrapper, src/MemWrapper.h and src/MemWrapper.cpp: where `ramInit` puts the arrays of the
-- graph, the resets before a search, and the queues between the elements and the memory.
pub mod Layout
pub mod Reset
pub mod Graph
pub mod Contents
pub mod Queues
pub mod Examples
