-- ===== src/Prelude/Ints.antt =====
-- Signed integers, and the machine words that hold them: `i64` and `i32` wrap as they do in release
-- builds.
use Prim.Native.Nat.{ℕ, suc, ◌+◌, ◌-◌, ◌*◌, ◌/◌, ◌%◌, ◌^◌, ◌<◌}
use mathlib.Core.Path.{◌≡◌}
use mathlib.Core.Bool.{Bool, true, false}
use native.Mathlib.Omega.{arith}
use rthas.Prelude.Tests.{ltb, leb, if◌then◌else◌}
use rthas.Prelude.Words.{u64_mod, u32_mod}

-- `negsuc n` is -(n + 1).
pub data ℤ : Type 0 where
  pos : ℕ → ℤ
  negsuc : ℕ → ℤ

abbrev pub pos_part : ℤ → ℕ
pos_part (pos n) = n
pos_part (negsuc n) = 0

abbrev pub neg_part : ℤ → ℕ
neg_part (pos n) = 0
neg_part (negsuc n) = suc n

-- a - b, as an integer.
abbrev pub sub_ℕ : ℕ → ℕ → ℤ
sub_ℕ a b = if leb b a then pos (a - b) else negsuc (b - a - 1)

infixl 65 ◌+ℤ◌ ◌-ℤ◌
unfoldable pub ◌+ℤ◌ : ℤ → ℤ → ℤ
a +ℤ b = sub_ℕ (pos_part a + pos_part b) (neg_part a + neg_part b)

unfoldable pub ◌-ℤ◌ : ℤ → ℤ → ℤ
a -ℤ b = sub_ℕ (pos_part a + neg_part b) (neg_part a + pos_part b)

-- The product with a number.
unfoldable pub times : ℤ → ℕ → ℤ
times (pos n) k = pos (n * k)
times (negsuc n) k = sub_ℕ 0 ((n + 1) * k)

-- `/`, which rounds to 0.
unfoldable pub quot : ℤ → ℕ → ℤ
quot (pos n) k = pos (n / k)
quot (negsuc n) k = sub_ℕ 0 ((n + 1) / k)

-- The remainder that is not negative.
abbrev pub rem : ℤ → ℕ → ℕ
rem (pos n) k = n % k
rem (negsuc n) k = k - 1 - n % k

abbrev pub is_negative : ℤ → Bool
is_negative (pos n) = false
is_negative (negsuc n) = true

-- `as u64`.
unfoldable pub as_u64 : ℤ → ℕ
as_u64 z = rem z u64_mod

-- The integer that the bits of a word stand for.
abbrev pub signed : ℕ → ℕ → ℤ
signed modulus bits = if ltb bits (modulus / 2) then pos bits else negsuc (modulus - 1 - bits)

-- What an `i64` keeps of a result, and `as i32`.
unfoldable pub i64 : ℤ → ℤ
i64 z = signed u64_mod (rem z u64_mod)

unfoldable pub as_i32 : ℤ → ℤ
as_i32 z = signed u32_mod (rem z u32_mod)

pub i64-fits : (z : ℤ) → pos_part z < 2 ^ 63 → neg_part z < 2 ^ 63 → i64 z ≡ z
unfolding i64
i64-fits (pos n) low high = ground arith
i64-fits (negsuc n) low high = ground arith

pub as_i32-fits : (z : ℤ) → pos_part z < 2 ^ 31 → neg_part z < 2 ^ 31 → as_i32 z ≡ z
unfolding as_i32
as_i32-fits (pos n) low high = ground arith
as_i32-fits (negsuc n) low high = ground arith

pub eq_of_parts : (a b : ℤ) → pos_part a + neg_part b ≡ pos_part b + neg_part a → a ≡ b
eq_of_parts a b h = ground arith
