-- ===== src/Client.antt =====
-- rthas-cli/src/main.rs: the terminal client. The children: the search of a binary for the marker of
-- the probes, and the flags by which the client finds its agent.
pub mod Scan
pub mod Target
