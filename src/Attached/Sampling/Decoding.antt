-- ===== src/Attached/Sampling/Decoding.antt =====
-- The records of the kernel as rthas-ebpf/src/event.rs reads them.
use rthas.Prelude.{
  ℕ, zero, suc, ◌*◌, ◌/◌, ◌%◌, ◌^◌, ◌<◌, ◌≡◌, refl, true, false, none, some, List, [], ◌∷◌, ◌++◌,
  arith, ltb, length, u64_mod, u32_mod,
}
use native.Mathlib.Numerals.{unary_clauses}
use rthas.Attached.Sampling.{RawEvent, little_endian, from_bytes}

-- A number as bytes, the lowest first.
abbrev pub bytes_of : ℕ → ℕ → List ℕ
bytes_of zero x = []
bytes_of (suc n) x = (x % 256) ∷ bytes_of n (x / 256)

-- A record as the kernel writes it: 24 bytes, the last three of padding.
abbrev pub written : RawEvent → ℕ → ℕ → ℕ → List ℕ
written ev pad1 pad2 pad3 =
    bytes_of 8 ev.ts_ns
    ++ (bytes_of 8 ev.ip ++ (bytes_of 4 ev.tid ++ (bytes_of 1 ev.kind ++ pad1 ∷ pad2 ∷ pad3 ∷ [])))

little_endian-bytes_of : (n x : ℕ) → x < 256 ^ n → little_endian (bytes_of n x) ≡ x
little_endian-bytes_of zero x lt = omega arith
little_endian-bytes_of (suc n) x lt =
    let e : 256 ^ suc n ≡ 256 * 256 ^ n = simp unary_clauses (omega arith) in
    let small : x / 256 < 256 ^ n = omega arith in
    omega (arith, little_endian-bytes_of n (x / 256) small)

-- Whatever is behind it, a record that the kernel has written is read as it was, and nothing shorter
-- than a record is read.
pub from_bytes-written :
    (ev : RawEvent) (pad1 pad2 pad3 : ℕ) (rest short : List ℕ)
    → ev.ts_ns < u64_mod
    → ev.ip < u64_mod
    → ev.tid < u32_mod
    → ev.kind < 256
    → length short < 24
    → (from_bytes (written ev pad1 pad2 pad3 ++ rest) ≡ some ev) × (from_bytes short ≡ none)
unfolding from_bytes
from_bytes-written ev pad1 pad2 pad3 rest short a b c d few =
    let ts = little_endian-bytes_of 8 ev.ts_ns a in
    let ip = little_endian-bytes_of 8 ev.ip b in
    let tid = little_endian-bytes_of 4 ev.tid c in
    let kind = little_endian-bytes_of 1 ev.kind d in
    (
      rw (from_bytes, long (length rest))
          (λ i. some (record { ts_ns = ts i; ip = ip i; tid = tid i; kind = kind i })),
      rw (from_bytes, too_short (length short) few) refl,
    )
  where
    long :
        (n : ℕ)
        → ltb
            (suc (
              suc (
                suc (
                  suc (
                    suc (
                      suc (
                        suc (
                          suc (
                            suc (
                              suc (
                                suc (
                                  suc (
                                    suc (
                                      suc (
                                        suc (
                                          suc (
                                            suc (
                                              suc (
                                                suc
                                                  (suc (suc (suc (suc (suc n))))))))))))))))))))))))
            24
          ≡ false
    long n = ground arith

    too_short : (n : ℕ) → n < 24 → ltb n 24 ≡ true
    too_short n lt = ground arith
