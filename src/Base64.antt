-- ===== src/Base64.antt =====
-- rthas/src/base64.rs: `encode` and `decode`.
pub mod Bits
pub mod RoundTrip
use rthas.Prelude.{
  ℕ, ◌+◌, ◌-◌, ◌*◌, ◌/◌, ◌%◌, bit_and, bit_or, ◌&&◌, ◌⊎◌, inl, inr, none, some, List, [], ◌∷◌, ◌++◌,
  ◌==◌, leb, ltb, if◌then◌else◌, get_elem?, filter, length, Text, codes, is_whitespace,
}

abbrev pub alphabet : Text
alphabet = codes "ABCDEFGHIJKLMNOPQRSTUVWXYZabcdefghijklmnopqrstuvwxyz0123456789+/"

-- `ALPH[v]`; every index that `encode` takes is below 64.
unfoldable pub alph : ℕ → ℕ
alph v = elim (get_elem? alphabet v) [ some c ↦ c | none ↦ 0 ]

-- The sextets, from the shifts and masks of one, two and three bytes.
abbrev pub first_of : ℕ → ℕ
first_of b0 = b0 / 4

abbrev pub second_of : ℕ → ℕ → ℕ
second_of b0 b1 = bit_or (bit_and b0 3 * 16) (b1 / 16)

abbrev pub third_of : ℕ → ℕ → ℕ
third_of b1 b2 = bit_or (bit_and b1 15 * 4) (b2 / 64)

unfoldable pub encode : List ℕ → Text
encode [] = []
encode (b0 ∷ []) = alph (first_of b0) ∷ alph (bit_and b0 3 * 16) ∷ b'=' ∷ b'=' ∷ []
encode (b0 ∷ b1 ∷ []) =
    alph (first_of b0) ∷ alph (second_of b0 b1) ∷ alph (bit_and b1 15 * 4) ∷ b'=' ∷ []
encode (b0 ∷ b1 ∷ b2 ∷ bytes) =
    alph (first_of b0)
    ∷ alph (second_of b0 b1)
    ∷ alph (third_of b1 b2)
    ∷ alph (bit_and b2 63)
    ∷ encode bytes

-- The two messages of `decode`.
pub data DecodeError : Type 0 where
  invalid_character : ℕ → DecodeError
  invalid_length : DecodeError

unfoldable pub decode_val : ℕ → DecodeError ⊎ ℕ
decode_val c =
    if leb b'A' c && leb c b'Z'
    then inr (c - b'A')
    else if leb b'a' c && leb c b'z'
    then inr (26 + (c - b'a'))
    else if leb b'0' c && leb c b'9'
    then inr (52 + (c - b'0'))
    else if c == b'+'
    then inr 62
    else if c == b'/'
    then inr 63
    else inl (invalid_character c)

-- The slots of the group of four.
abbrev pub pad_zero : ℕ → ℕ
pad_zero q = if q == 255 then 0 else q

abbrev pub padding : List ℕ → ℕ
padding quad = length (filter (λ q. q == 255) quad)

-- The bytes that a group stands for; `<<` on a `u8` drops what leaves it.
unfoldable pub flush_quad : ℕ → ℕ → ℕ → ℕ → List ℕ
flush_quad q0 q1 q2 q3 =
    let pad = padding (q0 ∷ q1 ∷ q2 ∷ q3 ∷ []) in
    bit_or (pad_zero q0 * 4 % 256) (pad_zero q1 / 16)
    ∷ ((if ltb pad 2 then bit_or (pad_zero q1 * 16 % 256) (pad_zero q2 / 4) ∷ [] else [])
        ++ (if ltb pad 1 then bit_or (pad_zero q2 * 64 % 256) (pad_zero q3) ∷ [] else []))

abbrev pub value_of : ℕ → DecodeError ⊎ ℕ
value_of c = if c == b'=' then inr 255 else decode_val c

-- A slot is filled; a full group goes out first.
abbrev pub put : List ℕ → List ℕ → ℕ → List ℕ × List ℕ
put (q0 ∷ q1 ∷ q2 ∷ q3 ∷ []) buf v = (v ∷ [], buf ++ flush_quad q0 q1 q2 q3)
put quad buf v = (quad ++ v ∷ [], buf)

-- Behind the last character.
abbrev pub last_quad : List ℕ → List ℕ → DecodeError ⊎ List ℕ
last_quad [] buf = inr buf
last_quad (q0 ∷ q1 ∷ q2 ∷ q3 ∷ []) buf = inr (buf ++ flush_quad q0 q1 q2 q3)
last_quad quad buf = inl invalid_length

-- The loop over the characters; `quad` has the slots filled so far.
unfoldable pub decode_loop : List ℕ → List ℕ → Text → DecodeError ⊎ List ℕ
unfolding decode_val
decode_loop quad buf [] = last_quad quad buf
decode_loop quad buf (c ∷ s) =
    if is_whitespace c then decode_loop quad buf s else elim (value_of c) [
      | inl e ↦ inl e
      | inr v ↦ decode_loop (put quad buf v).0 (put quad buf v).1 s
    ]

unfoldable pub decode : Text → DecodeError ⊎ List ℕ
unfolding decode_loop
decode s = decode_loop [] [] s
