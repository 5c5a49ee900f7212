-- ===== src/Prelude/Words.antt =====
-- Machine words: `u64` counters wrap at 2^64 (release builds), `u32` at 2^32, bytes at 2^8.
use Prim.Native.Nat.{ℕ, ◌+◌, ◌%◌, ◌^◌, ◌<◌}
use mathlib.Core.Path.{◌≡◌}
use native.Mathlib.Omega.{arith}

abbrev pub u64_mod : ℕ
u64_mod = 2 ^ 64

abbrev pub u32_mod : ℕ
u32_mod = 2 ^ 32

-- `n + 1` on a `u64` and on a `u32`.
unfoldable pub succ_u64 : ℕ → ℕ
succ_u64 n = (n + 1) % u64_mod

unfoldable pub succ_u32 : ℕ → ℕ
succ_u32 n = (n + 1) % u32_mod

pub succ_u64-eq : (n : ℕ) → n + 1 < u64_mod → succ_u64 n ≡ n + 1
unfolding succ_u64
succ_u64-eq n h = omega arith

pub succ_u32-eq : (n : ℕ) → n + 1 < u32_mod → succ_u32 n ≡ n + 1
unfolding succ_u32
succ_u32-eq n h = omega arith
