-- ===== src/Base64/Bits.antt =====
-- The shifts and masks of rthas/src/base64.rs as sums, by tables of all their values.
use rthas.Prelude.{
  ℕ, ◌+◌, ◌*◌, ◌/◌, ◌%◌, ◌<◌, bit_and, bit_or, ◌≡◌, refl, sym, ap, ◌∙◌, ◌⊎◌, inl, inr, Bool, true,
  false, false≢true, not, ◌&&◌, [], ◌∷◌, arith, ◌==◌, ==_iff, is_whitespace,
}
use rthas.Prelude.{all_below, all_below-lt}
use rthas.Base64.{DecodeError, alph, second_of, third_of, decode_val, value_of, flush_quad}

abbrev is_value : DecodeError ⊎ ℕ → ℕ → Bool
is_value (inl e) v = false
is_value (inr w) v = w == v

abbrev alph_test : ℕ → Bool
alph_test v = is_value (value_of (alph v)) v && not (is_whitespace (alph v))

alph-all : all_below 64 alph_test ≡ true
unfolding alph decode_val is_whitespace
alph-all = refl

and_both : (a b : Bool) → (a && b) ≡ true → (a ≡ true) × (b ≡ true)
and_both true b e = (refl, e)
and_both false b e = absurd (false≢true e)

is_value→eq : (r : DecodeError ⊎ ℕ) (v : ℕ) → is_value r v ≡ true → r ≡ inr v
is_value→eq (inl e) v h = absurd (false≢true h)
is_value→eq (inr w) v h = ap inr ((==_iff w v).0 h)

not→false : (b : Bool) → not b ≡ true → b ≡ false
not→false true e = sym e
not→false false e = refl

-- A character of the alphabet is read as its place.
pub alph-value : (v : ℕ) → v < 64 → (value_of (alph v) ≡ inr v) × (is_whitespace (alph v) ≡ false)
alph-value v lt =
    let (value, space) =
      and_both (is_value (value_of (alph v)) v) (not (is_whitespace (alph v)))
        (all_below-lt 64 alph_test alph-all v lt) in
    (is_value→eq (value_of (alph v)) v value, not→false (is_whitespace (alph v)) space)

-- Where the bits do not meet, `|` is a sum: for a left side of `m` values times `k` in a byte.
abbrev or_test : ℕ → ℕ → ℕ → Bool
or_test k n x = all_below n (λ y. bit_or (x * k % 256) y == x * k % 256 + y)

or_sum :
    (k m n : ℕ)
    → all_below m (or_test k n) ≡ true
    → (x y : ℕ) → x < m
    → y < n
    → bit_or (x * k % 256) y ≡ x * k % 256 + y
or_sum k m n all x y lt lt' = (==_iff (bit_or (x * k % 256) y) (x * k % 256 + y)).0 (
    all_below-lt n (λ y. bit_or (x * k % 256) y == x * k % 256 + y)
      (all_below-lt m (or_test k n) all x lt) y lt')

or_4 : all_below 64 (or_test 4 4) ≡ true
or_4 = refl

or_16 : all_below 64 (or_test 16 16) ≡ true
or_16 = refl

or_64 : all_below 64 (or_test 64 64) ≡ true
or_64 = refl

abbrev and_test : ℕ → ℕ → ℕ → Bool
and_test mask n b = bit_and b mask == b % n

and_rest :
    (mask n : ℕ)
    → all_below 256 (and_test mask n) ≡ true
    → (b : ℕ) → b < 256
    → bit_and b mask ≡ b % n
and_rest mask n all b lt =
    (==_iff (bit_and b mask) (b % n)).0 (all_below-lt 256 (and_test mask n) all b lt)

and_3 : all_below 256 (and_test 3 4) ≡ true
and_3 = refl

and_15 : all_below 256 (and_test 15 16) ≡ true
and_15 = refl

and_63 : all_below 256 (and_test 63 64) ≡ true
and_63 = refl

pub second_of-eq : (b0 b1 : ℕ) → b0 < 256 → b1 < 256 → second_of b0 b1 ≡ b0 % 4 * 16 + b1 / 16
second_of-eq b0 b1 lt lt' =
    let small : b0 % 4 * 16 % 256 ≡ b0 % 4 * 16 = omega arith in
    ap (λ x. bit_or (x * 16) (b1 / 16)) (and_rest 3 4 and_3 b0 lt)
    ∙ ap (λ x. bit_or x (b1 / 16)) (sym small)
    ∙ or_sum 16 64 16 or_16 (b0 % 4) (b1 / 16) (omega arith) (omega arith)
    ∙ ap (λ x. x + b1 / 16) small

pub third_of-eq : (b1 b2 : ℕ) → b1 < 256 → b2 < 256 → third_of b1 b2 ≡ b1 % 16 * 4 + b2 / 64
third_of-eq b1 b2 lt lt' =
    let small : b1 % 16 * 4 % 256 ≡ b1 % 16 * 4 = omega arith in
    ap (λ x. bit_or (x * 4) (b2 / 64)) (and_rest 15 16 and_15 b1 lt)
    ∙ ap (λ x. bit_or x (b2 / 64)) (sym small)
    ∙ or_sum 4 64 4 or_4 (b1 % 16) (b2 / 64) (omega arith) (omega arith)
    ∙ ap (λ x. x + b2 / 64) small

pub and_3-eq : (b : ℕ) → b < 256 → bit_and b 3 ≡ b % 4
and_3-eq b lt = and_rest 3 4 and_3 b lt

pub and_15-eq : (b : ℕ) → b < 256 → bit_and b 15 ≡ b % 16
and_15-eq b lt = and_rest 15 16 and_15 b lt

pub and_63-eq : (b : ℕ) → b < 256 → bit_and b 63 ≡ b % 64
and_63-eq b lt = and_rest 63 64 and_63 b lt

no_pad : (q : ℕ) → q < 64 → (q == 255) ≡ false
no_pad q lt = ground arith

pub flush_quad-three :
    (q0 q1 q2 q3 : ℕ)
    → q0 < 64
    → q1 < 64
    → q2 < 64
    → q3 < 64
    → flush_quad q0 q1 q2 q3
      ≡ (q0 * 4 % 256 + q1 / 16) ∷ (q1 * 16 % 256 + q2 / 4) ∷ (q2 * 64 % 256 + q3) ∷ []
unfolding flush_quad
flush_quad-three q0 q1 q2 q3 a b c d = rw (
  no_pad q0 a,
  no_pad q1 b,
  no_pad q2 c,
  no_pad q3 d,
  or_sum 4 64 4 or_4 q0 (q1 / 16) a (omega arith),
  or_sum 16 64 16 or_16 q1 (q2 / 4) b (omega arith),
  or_sum 64 64 64 or_64 q2 q3 c d,
)

pub flush_quad-two :
    (q0 q1 q2 : ℕ)
    → q0 < 64
    → q1 < 64
    → q2 < 64
    → flush_quad q0 q1 q2 255 ≡ (q0 * 4 % 256 + q1 / 16) ∷ (q1 * 16 % 256 + q2 / 4) ∷ []
unfolding flush_quad
flush_quad-two q0 q1 q2 a b c = rw (
  no_pad q0 a,
  no_pad q1 b,
  no_pad q2 c,
  or_sum 4 64 4 or_4 q0 (q1 / 16) a (omega arith),
  or_sum 16 64 16 or_16 q1 (q2 / 4) b (omega arith),
)

pub flush_quad-one :
    (q0 q1 : ℕ) → q0 < 64 → q1 < 64 → flush_quad q0 q1 255 255 ≡ (q0 * 4 % 256 + q1 / 16) ∷ []
unfolding flush_quad
flush_quad-one q0 q1 a b =
    rw (no_pad q0 a, no_pad q1 b, or_sum 4 64 4 or_4 q0 (q1 / 16) a (omega arith))
