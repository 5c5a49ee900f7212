-- ===== src/Agent.antt =====
-- rthas/src/agent.rs: what the control thread does with a command line. The children: the
-- arguments of a command, the scope in which a streaming command keeps probes on, and who may run
-- what.
pub mod Args
pub mod Scope
pub mod Access
pub mod Switches
pub mod Stats
