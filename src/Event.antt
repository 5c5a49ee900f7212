-- ===== src/Event.antt =====
-- rthas/src/event.rs: completed calls and the bounded buffer that they land in.
pub mod Recorder
use rthas.Prelude.{ℕ, Bool, Option, Text}

pub record Event : Type 0 where
  pub seq : ℕ
  pub span : ℕ
  pub parent : ℕ
  pub depth : ℕ
  pub probe : ℕ
  pub tid : ℕ
  pub task : ℕ
  pub start_ns : ℕ
  pub dur_ns : ℕ
  pub ok : Bool
  pub args : Text
  pub ret : Text
  pub stack : Option Text
