-- ===== src/Pe.antt =====
-- The processing element, src/pe.h and src/pe.cpp: the threads that inspect the depths, the creation of
-- the bursts that read them, and the controller.
pub mod Inspect
pub mod Create
pub mod Port
pub mod Depths
pub mod Expand
pub mod Controller
pub mod Analysis
pub mod Examples
