-- ===== src/Prelude/Lists.antt =====
-- Lists measured and indexed by native numbers, under the library's names.
use Prim.Native.Nat.{ℕ, zero, suc, ◌+◌, ◌-◌, ◌≤◌}
use mathlib.Core.Path.{◌≡◌, refl, ap, sym, ◌∙◌}
use mathlib.Core.Bool.{Bool, true, false}
use mathlib.Core.List.{List, [], ◌∷◌, ◌++◌, append_assoc}
use mathlib.Core.Option.{Option, none, some}
use mathlib.Core.Logic.{inl, inr}
use native.Mathlib.Omega.{arith}
use native.Mathlib.Nat.{zero-add}
use native.Mathlib.Decide.{dec_le}
use rthas.Prelude.Tests.{◌==◌, Bool-cases, if◌then◌else◌}

module _ {ℓ} {A : Type ℓ} where
  abbrev pub length : List A → ℕ
  length [] = 0
  length (x ∷ xs) = suc (length xs)

  abbrev pub get_elem? : List A → ℕ → Option A
  get_elem? [] i = none
  get_elem? (x ∷ xs) zero = some x
  get_elem? (x ∷ xs) (suc i) = get_elem? xs i

  abbrev pub take : ℕ → List A → List A
  take zero xs = []
  take (suc n) [] = []
  take (suc n) (x ∷ xs) = x ∷ take n xs

  abbrev pub drop : ℕ → List A → List A
  drop zero xs = xs
  drop (suc n) [] = []
  drop (suc n) (x ∷ xs) = drop n xs

  -- `VecDeque::pop_front`, without its result.
  abbrev pub pop_front : List A → List A
  pop_front [] = []
  pop_front (x ∷ xs) = xs

  -- `Iterator::filter` and `retain`: the library's `filter`, by a Boolean test.
  abbrev pub filter : (A → Bool) → List A → List A
  filter p [] = []
  filter p (x ∷ xs) = let rest = filter p xs in if p x then x ∷ rest else rest

  -- `Iterator::find`.
  abbrev pub find : (A → Bool) → List A → Option A
  find p [] = none
  find p (x ∷ xs) = if p x then some x else find p xs

  abbrev pub any : (A → Bool) → List A → Bool
  any p [] = false
  any p (x ∷ xs) = if p x then true else any p xs

  -- A predicate by recursion computes to tuples, which the tactics read and build.
  abbrev pub All {κ} : (A → Type κ) → List A → Type κ
  All P [] = Unit
  All P (x ∷ xs) = P x × All P xs

module _ {ℓ} {A : Type ℓ} where
  pub length-append : (xs ys : List A) → length (xs ++ ys) ≡ length xs + length ys
  length-append [] ys = omega arith
  length-append (x ∷ xs) ys = omega (arith, length-append xs ys)

  pub length-drop : (n : ℕ) (xs : List A) → length (drop n xs) ≡ length xs - n
  length-drop zero xs = omega arith
  length-drop (suc n) [] = omega arith
  length-drop (suc n) (x ∷ xs) = omega (arith, length-drop n xs)

  pub drop-append : (n : ℕ) (xs ys : List A) → n ≤ length xs → drop n (xs ++ ys) ≡ drop n xs ++ ys
  drop-append zero xs ys h = refl
  drop-append (suc n) [] ys h = elim h [ ]
  drop-append (suc n) (x ∷ xs) ys h = drop-append n xs ys (omega arith)

  pub drop-length-append : (xs ys : List A) → drop (length xs) (xs ++ ys) ≡ ys
  drop-length-append [] ys = refl
  drop-length-append (x ∷ xs) ys = drop-length-append xs ys

  pub pop_front-drop : (n : ℕ) (xs : List A) → pop_front (drop n xs) ≡ drop (suc n) xs
  pop_front-drop zero [] = refl
  pop_front-drop zero (x ∷ xs) = refl
  pop_front-drop (suc n) [] = refl
  pop_front-drop (suc n) (x ∷ xs) = pop_front-drop n xs

  pub filter-append :
      (p : A → Bool) (xs ys : List A) → filter p (xs ++ ys) ≡ filter p xs ++ filter p ys
  filter-append p [] ys = refl
  filter-append p (x ∷ xs) ys = ground (arith, filter-append p xs ys)

  pub All-append {κ} : (P : A → Type κ) (xs ys : List A) → All P xs → All P ys → All P (xs ++ ys)
  All-append P [] ys h k = k
  All-append P (x ∷ xs) ys h k = (h.0, All-append P xs ys h.1 k)

  pub filter-All : (p : A → Bool) (xs : List A) → All (λ x. p x ≡ true) xs → filter p xs ≡ xs
  filter-All p [] h = refl
  filter-All p (x ∷ xs) h = ground (arith, filter-All p xs h.1)

  pub filter-none : (p : A → Bool) (xs : List A) → All (λ x. p x ≡ false) xs → filter p xs ≡ []
  filter-none p [] h = refl
  filter-none p (x ∷ xs) h = ground (arith, filter-none p xs h.1)

  pub length-filter-le : (p : A → Bool) (xs : List A) → length (filter p xs) ≤ length xs
  length-filter-le p [] = omega arith
  length-filter-le p (x ∷ xs) = ground (arith, length-filter-le p xs)

  pub drop-nil : (n : ℕ) → drop {A = A} n [] ≡ []
  drop-nil zero = refl
  drop-nil (suc n) = refl

  pub drop-drop : (m n : ℕ) (xs : List A) → drop m (drop n xs) ≡ drop (n + m) xs
  drop-drop m zero xs = rw zero-add
  drop-drop m (suc n) [] = drop-nil m ∙ sym (drop-nil (suc n + m))
  drop-drop m (suc n) (x ∷ xs) =
      let e : suc n + m ≡ suc (n + m) = omega arith in rw e (drop-drop m n xs)

  pub drop-all : (n : ℕ) (xs : List A) → length xs ≤ n → drop n xs ≡ []
  drop-all zero [] h = refl
  drop-all zero (x ∷ xs) h = absurd (omega arith)
  drop-all (suc n) [] h = refl
  drop-all (suc n) (x ∷ xs) h = drop-all n xs (omega arith)

  pub drop-append_gt :
      (n : ℕ) (xs ys : List A) → length xs ≤ n → drop n (xs ++ ys) ≡ drop (n - length xs) ys
  drop-append_gt n [] ys h = let e : n - 0 ≡ n = omega arith in rw e
  drop-append_gt zero (x ∷ xs) ys h = absurd (omega arith)
  drop-append_gt (suc n) (x ∷ xs) ys h =
      let e : suc n - suc (length xs) ≡ n - length xs = omega arith in
      rw e (drop-append_gt n xs ys (omega arith))

  pub All-drop {κ} : (P : A → Type κ) (n : ℕ) (xs : List A) → All P xs → All P (drop n xs)
  All-drop P zero xs h = h
  All-drop P (suc n) [] h = h
  All-drop P (suc n) (x ∷ xs) h = All-drop P n xs h.1

  pub All-map {κ μ} :
      {P : A → Type κ} {Q : A → Type μ}
      → ((x : A) → P x → Q x)
      → (xs : List A) → All P xs
      → All Q xs
  All-map f [] h = tt
  All-map f (x ∷ xs) h = (f x h.0, All-map f xs h.1)

module _ {ℓ} {A : Type ℓ} where
  pop_front-append :
      (xs : List A) (x : A) → 1 ≤ length xs → pop_front xs ++ x ∷ [] ≡ drop 1 (xs ++ x ∷ [])
  pop_front-append [] x h = absurd (omega arith)
  pop_front-append (y ∷ xs) x h = refl

  -- A bounded queue that makes room by one `pop_front` holds the newest `cap` items.
  pub pop_front_if_full :
      (cap : ℕ) (xs : List A) (x : A)
      → length xs ≤ cap
      → 1 ≤ cap
      → (if length xs == cap then pop_front xs else xs) ++ x ∷ []
        ≡ drop (length xs + 1 - cap) (xs ++ x ∷ [])
  pop_front_if_full cap xs x fits room = elim (Bool-cases (length xs == cap)) [
    | inl full ↦
        let e : length xs + 1 - cap ≡ 1 = ground arith in
        rw (full, e) (pop_front-append xs x (ground arith))
    | inr more ↦ let e : length xs + 1 - cap ≡ 0 = ground arith in rw (more, e)
  ]

  -- The newest `cap` items, one item later.
  pub drop-newest_step :
      (cap : ℕ) (xs ys zs : List A) (x : A)
      → length xs ≤ cap
      → 1 ≤ cap
      → zs ≡ drop (length xs + 1 - cap) (xs ++ x ∷ [])
      → drop (length zs + length ys - cap) (zs ++ ys)
        ≡ drop (length xs + suc (length ys) - cap) (xs ++ x ∷ ys)
  drop-newest_step cap xs ys zs x fits room e =
      let d = length xs + 1 - cap in
      let all : length (xs ++ x ∷ []) ≡ length xs + 1 = length-append xs (x ∷ []) in
      let size : length zs ≡ length xs + 1 - d = rw e (length-drop d (xs ++ x ∷ []) ∙ rw all) in
      let count : d + (length zs + length ys - cap) ≡ length xs + suc (length ys) - cap =
        omega arith in
      let rest : zs ++ ys ≡ drop d (xs ++ x ∷ ys) = rw e (
        sym (drop-append d (xs ++ x ∷ []) ys (omega arith))
        ∙ ap (drop d) (append_assoc xs (x ∷ []) ys)) in
      ap (drop (length zs + length ys - cap)) rest
      ∙ drop-drop (length zs + length ys - cap) d (xs ++ x ∷ ys)
      ∙ ap (λ n. drop n (xs ++ x ∷ ys)) count

  -- Of the newest `cap` items, those of the second list are its own newest.
  pub filter-drop-append :
      (p : A → Bool) (cap : ℕ) (xs ys : List A)
      → length xs ≤ cap
      → All (λ x. p x ≡ false) xs
      → All (λ x. p x ≡ true) ys
      → filter p (drop (length xs + length ys - cap) (xs ++ ys)) ≡ drop (length ys - cap) ys
  filter-drop-append p cap xs ys fits old fresh =
      let k = length xs + length ys - cap in
      elim (dec_le k (length xs)) [
        | yes few ↦
            let e : length ys - cap ≡ 0 = omega arith in
            rw (
              drop-append k xs ys few,
              filter-append p (drop k xs) ys,
              e,
              filter-none p (drop k xs) (All-drop _ k xs old),
              filter-All p ys fresh,
            )
        | no many ↦
            let e : k - length xs ≡ length ys - cap = omega arith in
            rw (drop-append_gt k xs ys (omega arith), e)
              (filter-All p (drop (length ys - cap) ys) (All-drop _ (length ys - cap) ys fresh))
      ]

  pub take-append-drop : (n : ℕ) (xs : List A) → take n xs ++ drop n xs ≡ xs
  take-append-drop zero xs = refl
  take-append-drop (suc n) [] = refl
  take-append-drop (suc n) (x ∷ xs) = rw (take-append-drop n xs)
