-- ===== src/Profiler.antt =====
-- rthas/src/profiler.rs: the sampling profiler. The children: the session with the ring of the wall
-- clock, the stacks that it leaves, and the tree that is shown of them.
pub mod Session
pub mod Stacks
pub mod CallTree
