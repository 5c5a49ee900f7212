-- ===== src/Agent/Access/Secrets.antt =====
-- The comparison of secrets of rthas/src/agent.rs.
use rthas.Prelude.{
  ℕ, zero, suc, ◌/◌, ◌%◌, ◌≤◌, max, bit_or, ◌≡◌, refl, sym, ap, ap₂, subst, ◌∙◌, ◌↔◌, true, List,
  [], ◌∷◌, arith, ==_iff, length, Text,
}
use rthas.Prelude.{bit_xor}
use Prim.Native.Nat.{digits, differ, bit_xor-bitwise, bit_or-bitwise}
use rthas.Agent.Access.{byte_at, diff_loop, bytes_match, as_bytes, secrets_match}

differ-zero : (x y : ℕ) → differ x y ≡ 0 → x ≡ y
differ-zero zero y h = sym h
differ-zero (suc x) zero h = absurd (omega arith)
differ-zero (suc x) (suc y) h = ap suc (differ-zero x y h)

differ_self : (x : ℕ) → differ x x ≡ 0
differ_self zero = refl
differ_self (suc x) = differ_self x

xor_digits-zero : (n a b : ℕ) → a ≤ n → digits (λ b. b) differ n a b ≡ 0 → a ≡ b
xor_digits-zero zero zero b le h = sym h
xor_digits-zero zero (suc a) b le h = absurd (omega arith)
xor_digits-zero (suc n) zero b le h = sym h
xor_digits-zero (suc n) (suc a) b le h =
    let low : differ (suc a % 2) (b % 2) ≡ 0 = omega arith in
    let high : digits (λ b. b) differ n (suc a / 2) (b / 2) ≡ 0 = omega arith in
    omega (
      arith,
      differ-zero (suc a % 2) (b % 2) low,
      xor_digits-zero n (suc a / 2) (b / 2) (omega arith) high,
    )

xor_digits_self : (n a : ℕ) → a ≤ n → digits (λ b. b) differ n a a ≡ 0
xor_digits_self zero zero le = refl
xor_digits_self zero (suc a) le = absurd (omega arith)
xor_digits_self (suc n) zero le = refl
xor_digits_self (suc n) (suc a) le =
    omega (arith, differ_self (suc a % 2), xor_digits_self n (suc a / 2) (omega arith))

or_digits-zero : (n a b : ℕ) → a ≤ n → digits (λ b. b) max n a b ≡ 0 → (a ≡ 0) × (b ≡ 0)
or_digits-zero zero zero b le h = (refl, h)
or_digits-zero zero (suc a) b le h = absurd (omega arith)
or_digits-zero (suc n) zero b le h = (refl, h)
or_digits-zero (suc n) (suc a) b le h =
    let low : max (suc a % 2) (b % 2) ≡ 0 = omega arith in
    let high : digits (λ b. b) max n (suc a / 2) (b / 2) ≡ 0 = omega arith in
    let ih = or_digits-zero n (suc a / 2) (b / 2) (omega arith) high in absurd (omega arith)

bit_xor_iff : (a b : ℕ) → (bit_xor a b ≡ 0) ↔ (a ≡ b)
bit_xor_iff a b = (
  λ h. xor_digits-zero a a b (omega arith) (sym (bit_xor-bitwise a b) ∙ h),
  λ e. rw e (bit_xor-bitwise b b ∙ xor_digits_self b b (omega arith)),
)

bit_or-zero : (a b : ℕ) → bit_or a b ≡ 0 → (a ≡ 0) × (b ≡ 0)
bit_or-zero a b h = or_digits-zero a a b (omega arith) (sym (bit_or-bitwise a b) ∙ h)

-- The two agree on a range of indices.
Agree : ℕ → ℕ → List ℕ → List ℕ → Type 0
Agree zero i a b = Unit
Agree (suc n) i a b = (byte_at i a ≡ byte_at i b) × Agree n (suc i) a b

diff_loop-zero :
    (n i : ℕ) (a b : List ℕ) (diff : ℕ) → diff_loop n i a b diff ≡ 0 → (diff ≡ 0) × Agree n i a b
unfolding diff_loop Agree
diff_loop-zero zero i a b diff h = (h, tt)
diff_loop-zero (suc n) i a b diff h =
    let (now, rest) =
      diff_loop-zero n (suc i) a b (bit_or diff (bit_xor (byte_at i a) (byte_at i b))) h in
    let (before, here) = bit_or-zero diff (bit_xor (byte_at i a) (byte_at i b)) now in
    (before, ((bit_xor_iff (byte_at i a) (byte_at i b)).0 here, rest))

diff_loop_self : (n i : ℕ) (a : List ℕ) → diff_loop n i a a 0 ≡ 0
unfolding diff_loop
diff_loop_self zero i a = refl
diff_loop_self (suc n) i a =
    let same : bit_xor (byte_at i a) (byte_at i a) ≡ 0 =
      (bit_xor_iff (byte_at i a) (byte_at i a)).1 refl in
    rw same (diff_loop_self n (suc i) a)

Agree-cons : (n i : ℕ) (x y : ℕ) (a b : List ℕ) → Agree n (suc i) (x ∷ a) (y ∷ b) → Agree n i a b
unfolding Agree
Agree-cons zero i x y a b h = tt
Agree-cons (suc n) i x y a b (e, h) = (e, Agree-cons n (suc i) x y a b h)

Agree→eq : (a b : List ℕ) → length a ≡ length b → Agree (length a) 0 a b → a ≡ b
unfolding Agree
Agree→eq [] [] e h = refl
Agree→eq [] (y ∷ b) e h = absurd (omega arith)
Agree→eq (x ∷ a) [] e h = absurd (omega arith)
Agree→eq (x ∷ a) (y ∷ b) e (same, h) =
    ap₂ ◌∷◌ same (Agree→eq a b (omega arith) (Agree-cons (length a) 0 x y a b h))

bytes_match_iff : (a b : List ℕ) → (bytes_match a b ≡ true) ↔ (a ≡ b)
unfolding bytes_match
bytes_match_iff a b = (
  λ h.
      let zero_diff =
        (==_iff (diff_loop (max (length a) (length b)) 0 a b (bit_xor (length a) (length b))) 0).0
          h in
      let (lengths, agree) =
        diff_loop-zero (max (length a) (length b)) 0 a b (bit_xor (length a) (length b))
          zero_diff in
      let e : length a ≡ length b = (bit_xor_iff (length a) (length b)).0 lengths in
      let top : max (length a) (length b) ≡ length a = omega arith in
      Agree→eq a b e (subst (λ n. Agree n 0 a b) top agree),
  λ e. rw e (
      rw
        ((bit_xor_iff (length b) (length b)).1 refl, diff_loop_self (max (length b) (length b)) 0 b)
        refl),
)

-- Two secrets match exactly when they are the same bytes.
pub secrets_match_iff : (a b : Text) → (secrets_match a b ≡ true) ↔ (as_bytes a ≡ as_bytes b)
unfolding secrets_match
secrets_match_iff a b = bytes_match_iff (as_bytes a) (as_bytes b)
