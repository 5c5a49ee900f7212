-- ===== src/Probe.antt =====
-- rthas/src/probe.rs: a probe point and its flags.
pub mod Registry
use rthas.Prelude.{ℕ, ◌-◌, Bool, not, bit_and, bit_or, ◌==◌, if◌then◌else◌, Text}

pub data ProbeKind : Type 0 where
  sync async : ProbeKind

abbrev pub flag_enabled : ℕ
flag_enabled = 1

abbrev pub flag_stack : ℕ
flag_stack = 2

-- `id` and `flag` are atomics; `flag` is a byte.
pub record Probe : Type 0 where
  pub path : Text
  pub file : Text
  pub line : ℕ
  pub kind : ProbeKind
  pub id : ℕ
  pub flag : ℕ

unfoldable pub enabled : Probe → Bool
enabled p = not (bit_and p.flag flag_enabled == 0)

-- `fetch_or(FLAG)` and `fetch_and(!FLAG)` on a byte.
unfoldable pub set_enabled : Bool → Probe → Probe
set_enabled on p = record p {
  flag = if on then bit_or p.flag flag_enabled else bit_and p.flag (255 - flag_enabled);
}

unfoldable pub capture_stack : Probe → Bool
capture_stack p = not (bit_and p.flag flag_stack == 0)

unfoldable pub set_capture_stack : Bool → Probe → Probe
set_capture_stack on p = record p {
  flag = if on then bit_or p.flag flag_stack else bit_and p.flag (255 - flag_stack);
}
