-- ===== src/Base64/RoundTrip.antt =====
-- `decode` takes back what `encode` of rthas/src/base64.rs does.
use rthas.Prelude.{
  ℕ, ◌+◌, ◌*◌, ◌/◌, ◌%◌, ◌<◌, bit_and, ◌≡◌, refl, sym, ap, ap₂, ◌∙◌, ◌⊎◌, inl, inr, false, List, [],
  ◌∷◌, ◌++◌, append-nil, append_assoc, arith, All, Text, is_whitespace,
}
use rthas.Base64.{
  alph, first_of, second_of, third_of, encode, value_of, flush_quad, put, last_quad, decode_loop,
  decode,
}
use rthas.Base64.Bits.{
  alph-value, second_of-eq, third_of-eq, and_3-eq, and_15-eq, and_63-eq, flush_quad-three,
  flush_quad-two, flush_quad-one,
}

-- One character that is a value.
loop-value :
    (quad buf : List ℕ) (c v : ℕ) (s : Text)
    → value_of c ≡ inr v
    → is_whitespace c ≡ false
    → decode_loop quad buf (c ∷ s) ≡ decode_loop (put quad buf v).0 (put quad buf v).1 s
unfolding decode_loop
loop-value quad buf c v s value space = rw (space, value)

-- A group that is waiting to go out, or none, and what it is.
abbrev Waiting : List ℕ → List ℕ → Type 0
Waiting quad bytes =
    ((quad ≡ []) × (bytes ≡ []))
    ⊎ ((q0 : ℕ) × (q1 : ℕ) × (q2 : ℕ) × (q3 : ℕ) × (quad ≡ q0 ∷ q1 ∷ q2 ∷ q3 ∷ [])
        × (bytes ≡ flush_quad q0 q1 q2 q3))

put-Waiting :
    (quad bytes buf : List ℕ) (v : ℕ) → Waiting quad bytes → put quad buf v ≡ (v ∷ [], buf ++ bytes)
put-Waiting quad bytes buf v (inl (e, d)) = rw (e, d) (ap (λ b. (v ∷ [], b)) (sym (append-nil buf)))
put-Waiting quad bytes buf v (inr (q0, q1, q2, q3, e, d)) = rw (e, d)

last_quad-Waiting :
    (quad bytes buf : List ℕ) → Waiting quad bytes → last_quad quad buf ≡ inr (buf ++ bytes)
last_quad-Waiting quad bytes buf (inl (e, d)) = rw (e, d) (ap inr (sym (append-nil buf)))
last_quad-Waiting quad bytes buf (inr (q0, q1, q2, q3, e, d)) = rw (e, d)

-- Four characters in a row.
abbrev Reads : ℕ → ℕ → Type 0
Reads c v = (value_of c ≡ inr v) × (is_whitespace c ≡ false)

loop-four :
    (quad bytes buf : List ℕ) (c0 c1 c2 c3 v0 v1 v2 v3 : ℕ) (s : Text)
    → Waiting quad bytes
    → Reads c0 v0
    → Reads c1 v1
    → Reads c2 v2
    → Reads c3 v3
    → decode_loop quad buf (c0 ∷ c1 ∷ c2 ∷ c3 ∷ s)
      ≡ decode_loop (v0 ∷ v1 ∷ v2 ∷ v3 ∷ []) (buf ++ bytes) s
loop-four quad bytes buf c0 c1 c2 c3 v0 v1 v2 v3 s w (a, a') (b, b') (c, c') (d, d') =
    loop-value quad buf c0 v0 (c1 ∷ c2 ∷ c3 ∷ s) a a'
    ∙ ap (λ p. decode_loop p.0 p.1 (c1 ∷ c2 ∷ c3 ∷ s)) (put-Waiting quad bytes buf v0 w)
    ∙ loop-value (v0 ∷ []) (buf ++ bytes) c1 v1 (c2 ∷ c3 ∷ s) b b'
    ∙ loop-value (v0 ∷ v1 ∷ []) (buf ++ bytes) c2 v2 (c3 ∷ s) c c'
    ∙ loop-value (v0 ∷ v1 ∷ v2 ∷ []) (buf ++ bytes) c3 v3 s d d'

equals-value : Reads b'=' 255
unfolding is_whitespace
equals-value = (refl, refl)

abbrev pub Bytes : List ℕ → Type 0
Bytes input = All (λ b. b < 256) input

loop-end :
    (quad bytes buf : List ℕ) → Waiting quad bytes → decode_loop quad buf [] ≡ inr (buf ++ bytes)
unfolding decode_loop
loop-end quad bytes buf w = last_quad-Waiting quad bytes buf w

-- What a group of one, two and three bytes gives back.
out-one : (b0 : ℕ) → b0 < 256 → flush_quad (first_of b0) (bit_and b0 3 * 16) 255 255 ≡ b0 ∷ []
out-one b0 lt =
    let second = and_3-eq b0 lt in
    let e : first_of b0 * 4 % 256 + bit_and b0 3 * 16 / 16 ≡ b0 = omega arith in
    flush_quad-one (first_of b0) (bit_and b0 3 * 16) (omega arith) (omega arith) ∙ rw e

out-two :
    (b0 b1 : ℕ)
    → b0 < 256
    → b1 < 256
    → flush_quad (first_of b0) (second_of b0 b1) (bit_and b1 15 * 4) 255 ≡ b0 ∷ b1 ∷ []
out-two b0 b1 lt0 lt1 =
    let second = second_of-eq b0 b1 lt0 lt1 in
    let third = and_15-eq b1 lt1 in
    let e0 : first_of b0 * 4 % 256 + second_of b0 b1 / 16 ≡ b0 = omega arith in
    let e1 : second_of b0 b1 * 16 % 256 + bit_and b1 15 * 4 / 4 ≡ b1 = omega arith in
    flush_quad-two (first_of b0) (second_of b0 b1) (bit_and b1 15 * 4) (omega arith) (omega arith)
      (omega arith)
    ∙ ap₂ (λ x y. x ∷ y ∷ []) e0 e1

out-three :
    (b0 b1 b2 : ℕ)
    → b0 < 256
    → b1 < 256
    → b2 < 256
    → flush_quad (first_of b0) (second_of b0 b1) (third_of b1 b2) (bit_and b2 63)
      ≡ b0 ∷ b1 ∷ b2 ∷ []
out-three b0 b1 b2 lt0 lt1 lt2 =
    let second = second_of-eq b0 b1 lt0 lt1 in
    let third = third_of-eq b1 b2 lt1 lt2 in
    let fourth = and_63-eq b2 lt2 in
    let e0 : first_of b0 * 4 % 256 + second_of b0 b1 / 16 ≡ b0 = omega arith in
    let e1 : second_of b0 b1 * 16 % 256 + third_of b1 b2 / 4 ≡ b1 = omega arith in
    let e2 : third_of b1 b2 * 64 % 256 + bit_and b2 63 ≡ b2 = omega arith in
    flush_quad-three (first_of b0) (second_of b0 b1) (third_of b1 b2) (bit_and b2 63) (omega arith)
      (omega arith) (omega arith) (omega arith)
    ∙ ap₂ (λ x (p : ℕ × ℕ). x ∷ p.0 ∷ p.1 ∷ []) e0 (λ i. (e1 i, e2 i))

loop-encode :
    (quad bytes buf input : List ℕ)
    → Waiting quad bytes
    → Bytes input
    → decode_loop quad buf (encode input) ≡ inr ((buf ++ bytes) ++ input)
unfolding encode
loop-encode quad bytes buf [] w all =
    loop-end quad bytes buf w ∙ ap inr (sym (append-nil (buf ++ bytes)))
loop-encode quad bytes buf (b0 ∷ []) w (lt, all) =
    let second = and_3-eq b0 lt in
    let q0 = first_of b0 in
    let q1 = bit_and b0 3 * 16 in
    loop-four quad bytes buf (alph q0) (alph q1) b'=' b'=' q0 q1 255 255 [] w
      (alph-value q0 (omega arith)) (alph-value q1 (omega arith)) equals-value equals-value
    ∙ loop-end (q0 ∷ q1 ∷ 255 ∷ 255 ∷ []) (b0 ∷ []) (buf ++ bytes)
        (inr (q0, q1, 255, 255, refl, sym (out-one b0 lt)))
loop-encode quad bytes buf (b0 ∷ b1 ∷ []) w (lt0, (lt1, all)) =
    let second = second_of-eq b0 b1 lt0 lt1 in
    let third = and_15-eq b1 lt1 in
    let q0 = first_of b0 in
    let q1 = second_of b0 b1 in
    let q2 = bit_and b1 15 * 4 in
    loop-four quad bytes buf (alph q0) (alph q1) (alph q2) b'=' q0 q1 q2 255 [] w
      (alph-value q0 (omega arith)) (alph-value q1 (omega arith)) (alph-value q2 (omega arith))
      equals-value
    ∙ loop-end (q0 ∷ q1 ∷ q2 ∷ 255 ∷ []) (b0 ∷ b1 ∷ []) (buf ++ bytes)
        (inr (q0, q1, q2, 255, refl, sym (out-two b0 b1 lt0 lt1)))
loop-encode quad bytes buf (b0 ∷ b1 ∷ b2 ∷ rest) w (lt0, (lt1, (lt2, all))) =
    let second = second_of-eq b0 b1 lt0 lt1 in
    let third = third_of-eq b1 b2 lt1 lt2 in
    let fourth = and_63-eq b2 lt2 in
    let q0 = first_of b0 in
    let q1 = second_of b0 b1 in
    let q2 = third_of b1 b2 in
    let q3 = bit_and b2 63 in
    loop-four quad bytes buf (alph q0) (alph q1) (alph q2) (alph q3) q0 q1 q2 q3 (encode rest) w
      (alph-value q0 (omega arith)) (alph-value q1 (omega arith)) (alph-value q2 (omega arith))
      (alph-value q3 (omega arith))
    ∙ loop-encode (q0 ∷ q1 ∷ q2 ∷ q3 ∷ []) (b0 ∷ b1 ∷ b2 ∷ []) (buf ++ bytes) rest
        (inr (q0, q1, q2, q3, refl, sym (out-three b0 b1 b2 lt0 lt1 lt2))) all
    ∙ ap inr (append_assoc (buf ++ bytes) (b0 ∷ b1 ∷ b2 ∷ []) rest)

-- For every list of bytes, `decode` of what `encode` answers is that list.
pub decode-encode : (input : List ℕ) → Bytes input → decode (encode input) ≡ inr input
unfolding decode
decode-encode input all = loop-encode [] [] [] input (inl (refl, refl)) all
