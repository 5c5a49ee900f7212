-- ===== src/Samples.antt =====
-- Tests of the models on small inputs, and instances of the theorems.
mod Tracing
mod Filters
mod Attached
mod Commands
mod Agent
mod Client
mod Profiles
mod Stats
mod Outside
mod Dates
