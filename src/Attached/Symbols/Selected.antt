-- ===== src/Attached/Symbols/Selected.antt =====
-- Which functions a pattern selects, of rthas-ebpf.
use rthas.Prelude.{
  ℕ, zero, suc, ◌+◌, ◌-◌, ◌≤◌, min, ◌≡◌, refl, sym, subst, ◌∙◌, ◌⊎◌, inl, inr, Bool, true, false,
  List, [], ◌∷◌, arith, ltb, if◌then◌else◌, ltb→lt, Bool-cases, length, take, Text, is_empty,
}
use rthas.Attached.Symbols.{Symbol, keep_symbol, max_attach, matching_from, select_ids}

-- A symbol that is there and is kept.
abbrev pub Kept : Text → List Symbol → ℕ → Type 0
Kept pattern [] i = ⊥
Kept pattern (s ∷ symbols) zero = keep_symbol pattern s.demangled s.mangled ≡ true
Kept pattern (s ∷ symbols) (suc i) = Kept pattern symbols i

abbrev pub kept_count : Text → List Symbol → ℕ
kept_count pattern [] = 0
kept_count pattern (s ∷ symbols) =
    (if keep_symbol pattern s.demangled s.mangled then 1 else 0) + kept_count pattern symbols

length-matching :
    (i : ℕ) (pattern : Text) (symbols : List Symbol)
    → length (matching_from i pattern symbols) ≡ kept_count pattern symbols
unfolding matching_from
length-matching i pattern [] = refl
length-matching i pattern (s ∷ symbols) =
    elim (Bool-cases (keep_symbol pattern s.demangled s.mangled)) [
      | inl kept ↦ rw kept (omega (arith, length-matching (suc i) pattern symbols))
      | inr dropped ↦ rw dropped (omega (arith, length-matching (suc i) pattern symbols))
    ]

-- Indices from `i` on: each is that of a symbol that is kept, and `j` are kept in front of the
-- first of them, one more in front of the next, and so on.
abbrev Ranked : Text → List Symbol → ℕ → ℕ → List ℕ → Type 0
Ranked pattern symbols i j [] = Unit
Ranked pattern symbols i j (id ∷ ids) =
    (i ≤ id)
    × Kept pattern symbols (id - i)
    × (kept_count pattern (take (id - i) symbols) ≡ j)
    × Ranked pattern symbols i (suc j) ids

abbrev one_if : Bool → ℕ
one_if true = 1
one_if false = 0

Ranked-cons :
    (pattern : Text) (s : Symbol) (symbols : List Symbol) (i j : ℕ) (ids : List ℕ)
    → Ranked pattern symbols (suc i) j ids
    → Ranked pattern (s ∷ symbols) i (one_if (keep_symbol pattern s.demangled s.mangled) + j) ids
Ranked-cons pattern s symbols i j [] h = tt
Ranked-cons pattern s symbols i j (id ∷ ids) (le, kept, rank, h) =
    let k = one_if (keep_symbol pattern s.demangled s.mangled) in
    let e : id - i ≡ suc (id - suc i) = omega arith in
    let rank' : kept_count pattern (take (suc (id - suc i)) (s ∷ symbols)) ≡ k + j =
      counted (keep_symbol pattern s.demangled s.mangled) rank in
    let shift : k + suc j ≡ suc (k + j) = omega arith in
    (
      omega arith,
      subst (Kept pattern (s ∷ symbols)) (sym e) kept,
      subst (λ n. kept_count pattern (take n (s ∷ symbols)) ≡ k + j) (sym e) rank',
      subst (λ r. Ranked pattern (s ∷ symbols) i r ids) shift
          (Ranked-cons pattern s symbols i (suc j) ids h),
    )
  where
    counted :
        (b : Bool)
        → kept_count pattern (take (id - suc i) symbols) ≡ j
        → (if b then 1 else 0) + kept_count pattern (take (id - suc i) symbols) ≡ one_if b + j
    counted true r = omega arith
    counted false r = omega arith

matching-Ranked :
    (i : ℕ) (pattern : Text) (symbols : List Symbol)
    → Ranked pattern symbols i 0 (matching_from i pattern symbols)
unfolding matching_from
matching-Ranked i pattern [] = tt
matching-Ranked i pattern (s ∷ symbols) =
    let rest = matching-Ranked (suc i) pattern symbols in
    let later = Ranked-cons pattern s symbols i 0 (matching_from (suc i) pattern symbols) rest in
    elim (Bool-cases (keep_symbol pattern s.demangled s.mangled)) [
      | inl kept ↦
          let e : i - i ≡ 0 = omega arith in
          let later' : Ranked pattern (s ∷ symbols) i 1 (matching_from (suc i) pattern symbols) =
            subst
              (λ b.
                Ranked pattern (s ∷ symbols) i (one_if b + 0)
                  (matching_from (suc i) pattern symbols))
              kept later in
          rw kept (
            omega arith,
            subst (Kept pattern (s ∷ symbols)) (sym e) kept,
            subst (λ n. kept_count pattern (take n (s ∷ symbols)) ≡ 0) (sym e) refl,
            later',
          )
      | inr dropped ↦
          let later' : Ranked pattern (s ∷ symbols) i 0 (matching_from (suc i) pattern symbols) =
            subst
              (λ b.
                Ranked pattern (s ∷ symbols) i (one_if b + 0)
                  (matching_from (suc i) pattern symbols))
              dropped later in
          rw dropped later'
    ]

Ranked-take :
    (pattern : Text) (symbols : List Symbol) (i j n : ℕ) (ids : List ℕ)
    → Ranked pattern symbols i j ids
    → Ranked pattern symbols i j (take n ids)
Ranked-take pattern symbols i j zero ids h = tt
Ranked-take pattern symbols i j (suc n) [] h = tt
Ranked-take pattern symbols i j (suc n) (id ∷ ids) (le, kept, rank, h) =
    (le, kept, rank, Ranked-take pattern symbols i (suc j) n ids h)

length-take : (n : ℕ) (ids : List ℕ) → length (take n ids) ≡ min n (length ids)
length-take zero ids = omega arith
length-take (suc n) [] = omega arith
length-take (suc n) (id ∷ ids) = omega (arith, length-take n ids)

-- The answer for a pattern: an error where it is empty or no symbol is kept, and otherwise the
-- indices of the first symbols that are kept.
abbrev pub Answer : Text → List Symbol → Text ⊎ List ℕ → Type 0
Answer pattern symbols (inl e) = (is_empty pattern ≡ true) ⊎ (kept_count pattern symbols ≡ 0)
Answer pattern symbols (inr ids) =
    (is_empty pattern ≡ false)
    × (1 ≤ length ids)
    × (length ids ≡ min max_attach (kept_count pattern symbols))
    × Ranked pattern symbols 0 0 ids

-- `select_ids` fails exactly where the pattern is empty or no symbol is kept, and otherwise answers
-- the indices of the first symbols that are kept, in order and none left out: 64, or all of them
-- where there are fewer.
pub select_ids-Answer :
    (symbols : List Symbol) (pattern : Text) → Answer pattern symbols (select_ids symbols pattern)
unfolding select_ids
select_ids-Answer symbols pattern =
    let ids = matching_from 0 pattern symbols in
    let count = length-matching 0 pattern symbols in
    let ranked = matching-Ranked 0 pattern symbols in
    elim (Bool-cases (is_empty pattern)) [
      | inl blank ↦ rw blank (inl blank)
      | inr given ↦ elim (Bool-cases (is_empty ids)) [
        | inl nothing ↦ rw (given, nothing) (inr (sym count ∙ empty-length ids nothing))
        | inr something ↦
            let some_there = length-shown ids something in
            elim (Bool-cases (ltb max_attach (length ids))) [
              | inl many ↦
                  let over = ltb→lt max_attach (length ids) many in
                  rw (given, something, many)
                    (
                      given,
                      omega (arith, length-take max_attach ids),
                      omega (arith, length-take max_attach ids),
                      Ranked-take pattern symbols 0 0 max_attach ids ranked,
                    )
              | inr few ↦
                  rw (given, something, few)
                    (given, some_there, omega (arith, not_over (length ids) few, count), ranked)
            ]
      ]
    ]
  where
    empty-length : (ids : List ℕ) → is_empty ids ≡ true → length ids ≡ 0
    empty-length [] e = refl
    empty-length (id ∷ ids) e = cc

    length-shown : (ids : List ℕ) → is_empty ids ≡ false → 1 ≤ length ids
    length-shown [] e = cc
    length-shown (id ∷ ids) e = omega arith

    not_over : (n : ℕ) → ltb max_attach n ≡ false → n ≤ max_attach
    not_over n e = ground arith
