-- ===== src/Attached.antt =====
-- rthas-ebpf: a process looked at from outside. The children: which of its functions are probed
-- (symbols.rs), and the samples that a command collects (server.rs, event.rs).
pub mod Symbols
pub mod Sampling
