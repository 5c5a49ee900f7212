-- ===== src/Pipe/Grep/Context.antt =====
-- The lines that `grep -A`, `-B` and `-C` of rthas/src/pipe.rs let through.
use rthas.Prelude.{
  ℕ, zero, suc, ◌+◌, ◌-◌, ◌≤◌, ◌≡◌, refl, sym, ap, subst, ◌∙◌, ◌⊎◌, inl, inr, Bool, true, false,
  ◌||◌, List, [], ◌∷◌, ◌++◌, append_assoc, arith, ltb, if◌then◌else◌, Bool-cases, length,
  length-append, Text,
}
use rthas.Pipe.Grep.{trim_buf}
use rthas.Pipe.Grep.Steps.{remember}

-- One of the first `k` lines matches.
abbrev pub near : (Text → Bool) → ℕ → List Text → Bool
near m zero lines = false
near m (suc k) [] = false
near m (suc k) (l ∷ lines) = m l || near m k lines

-- What grep's context options promise: a line is shown where it matches, where one of the `after`
-- lines in front of it does, or one of the `before` lines behind it. `past` is the input already
-- read, the newest line first.
abbrev pub in_context : (Text → Bool) → ℕ → ℕ → List Text → ℕ → List Text → List (ℕ × Text)
in_context m before after past n [] = []
in_context m before after past n (l ∷ lines) =
    let rest = in_context m before after (l ∷ past) (n + 1) lines in
    if near m after past || (m l || near m before lines) then (n + 1, l) ∷ rest else rest

-- How many lines are still to be shown behind the last match.
abbrev pub owed : (Text → Bool) → ℕ → List Text → ℕ
owed m after [] = 0
owed m after (l ∷ past) = if m l then after else owed m after past - 1

-- The remembered lines that a coming match will show.
abbrev pub keep : (Text → Bool) → ℕ → List (ℕ × Text) → List Text → List (ℕ × Text)
keep m before [] lines = []
keep m before (b ∷ buf) lines =
    if near m (before - length buf) lines then b ∷ buf else keep m before buf lines

pub near-hit :
    (m : Text → Bool) (k : ℕ) (l : Text) (lines : List Text)
    → 1 ≤ k
    → m l ≡ true
    → near m k (l ∷ lines) ≡ true
near-hit m zero l lines lt h = absurd (omega arith)
near-hit m (suc k) l lines lt h = rw h

pub near-miss :
    (m : Text → Bool) (k : ℕ) (l : Text) (lines : List Text)
    → m l ≡ false
    → near m k (l ∷ lines) ≡ near m (k - 1) lines
near-miss m zero l lines h = refl
near-miss m (suc k) l lines h = rw h (ap (λ j. near m j lines) (omega arith))

near-le :
    (m : Text → Bool) (j k : ℕ) (lines : List Text)
    → j ≤ k
    → near m j lines ≡ true
    → near m k lines ≡ true
near-le m zero k lines le h = cc
near-le m (suc j) k [] le h = cc
near-le m (suc j) zero (l ∷ lines) le h = absurd (omega arith)
near-le m (suc j) (suc k) (l ∷ lines) le h = elim (Bool-cases (m l)) [
  | inl hit ↦ rw hit
  | inr miss ↦
      let later : near m j lines ≡ true = (rw miss at h) in
      rw (miss, near-le m j k lines (omega arith) later)
]

owed-le : (m : Text → Bool) (after : ℕ) (past : List Text) → owed m after past ≤ after
owed-le m after [] = omega arith
owed-le m after (l ∷ past) = elim (Bool-cases (m l)) [
  | inl hit ↦ rw hit (omega arith)
  | inr miss ↦ let less = owed-le m after past in rw miss (omega arith)
]

-- The lines owed say whether one of the last `k` matched.
pub near-owed :
    (m : Text → Bool) (after k : ℕ) (past : List Text)
    → k ≤ after
    → near m k past ≡ ltb (after - k) (owed m after past)
near-owed m after zero past le = let less = owed-le m after past in ground arith
near-owed m after (suc k) [] le = ground arith
near-owed m after (suc k) (l ∷ past) le = elim (Bool-cases (m l)) [
  | inl hit ↦ rw hit (ground arith)
  | inr miss ↦
      let later : near m k past ≡ ltb (after - k) (owed m after past) =
        near-owed m after k past (omega arith) in
      rw (miss, later) (ground arith)
]

pub keep-hit :
    (m : Text → Bool) (before : ℕ) (buf : List (ℕ × Text)) (l : Text) (lines : List Text)
    → length buf ≤ before
    → m l ≡ true
    → keep m before buf (l ∷ lines) ≡ buf
keep-hit m before [] l lines le h = refl
keep-hit m before (b ∷ buf) l lines le h =
    rw (near-hit m (before - length buf) l lines (omega arith) h)

-- The choice that `in_context` makes, on a line that does not match itself.
abbrev pub shown_if : Bool → ℕ × Text → List (ℕ × Text) → List (ℕ × Text)
shown_if true x rest = x ∷ rest
shown_if false x rest = rest

keep-snoc :
    (m : Text → Bool) (before : ℕ) (buf : List (ℕ × Text)) (x : ℕ × Text) (l : Text)
    (lines : List Text) (rest : List (ℕ × Text))
    → suc (length buf) ≤ before
    → m l ≡ false
    → keep m before buf (l ∷ lines) ++ shown_if (near m before lines) x rest
      ≡ keep m before (buf ++ x ∷ []) lines ++ rest
keep-snoc m before [] x l lines rest le h =
    let all_of : before - 0 ≡ before = omega arith in
    elim (Bool-cases (near m before lines)) [
      | inl hit ↦ rw (all_of, hit)
      | inr miss ↦ rw (all_of, miss)
    ]
keep-snoc m before (b ∷ buf) x l lines rest le h =
    let same : before - length (buf ++ x ∷ []) ≡ before - length buf - 1 =
      ap (λ k. before - k) (length-append buf (x ∷ [])) ∙ omega arith in
    elim (Bool-cases (near m (before - length buf - 1) lines)) [
      | inl hit ↦
          rw
            (
              near-miss m (before - length buf) l lines h,
              same,
              hit,
              near-le m (before - length buf - 1) before lines (omega arith) hit,
            )
            (ap (◌∷◌ b) (sym (append_assoc buf (x ∷ []) rest)))
      | inr miss ↦
          rw (near-miss m (before - length buf) l lines h, same, miss)
            (keep-snoc m before buf x l lines rest (omega arith) h)
    ]

trim_buf-short : (before : ℕ) (xs : List (ℕ × Text)) → length xs ≤ before → trim_buf before xs ≡ xs
unfolding trim_buf
trim_buf-short before [] le = refl
trim_buf-short before (x ∷ xs) le = ground arith

trim_buf-long :
    (before : ℕ) (x : ℕ × Text) (xs : List (ℕ × Text))
    → length xs ≡ before
    → trim_buf before (x ∷ xs) ≡ xs
unfolding trim_buf
trim_buf-long before x xs e =
    let over : ltb before (suc (length xs)) ≡ true = ground arith in
    rw over (trim_buf-short before xs (omega arith))

remember-none : (buf : List (ℕ × Text)) (x : ℕ × Text) → remember 0 buf x ≡ buf
remember-none buf x = refl

remember-short :
    (before : ℕ) (buf : List (ℕ × Text)) (x : ℕ × Text)
    → suc (length buf) ≤ before
    → remember before buf x ≡ buf ++ x ∷ []
remember-short before buf x le =
    let some_before : ltb 0 before ≡ true = ground arith in
    rw some_before
      (trim_buf-short before (buf ++ x ∷ []) (rw (length-append buf (x ∷ [])) (omega arith)))

remember-full :
    (b : ℕ × Text) (buf : List (ℕ × Text)) (x : ℕ × Text)
    → remember (suc (length buf)) (b ∷ buf) x ≡ buf ++ x ∷ []
remember-full b buf x =
    let some_before : ltb 0 (suc (length buf)) ≡ true = ground arith in
    rw some_before (
      trim_buf-long (suc (length buf)) b (buf ++ x ∷ [])
        (rw (length-append buf (x ∷ [])) (omega arith)))

abbrev Room : ℕ → List (ℕ × Text) → Type 0
Room before buf = (suc (length buf) ≤ before) ⊎ (length buf ≡ before)

room : (before : ℕ) (buf : List (ℕ × Text)) → length buf ≤ before → Room before buf
room before buf le = ground arith

-- One line that is neither a match nor owed, as the remembered lines see it.
pub keep-remember :
    (m : Text → Bool) (before : ℕ) (buf : List (ℕ × Text)) (x : ℕ × Text) (l : Text)
    (lines : List Text) (rest : List (ℕ × Text))
    → length buf ≤ before
    → m l ≡ false
    → keep m before buf (l ∷ lines) ++ shown_if (near m before lines) x rest
      ≡ keep m before (remember before buf x) lines ++ rest
keep-remember m before buf x l lines rest le h = elim (room before buf le) [
  | inl short ↦
      rw (remember-short before buf x short) (keep-snoc m before buf x l lines rest short h)
  | inr full ↦
      subst
        (λ k.
          keep m k buf (l ∷ lines) ++ shown_if (near m k lines) x rest
          ≡ keep m k (remember k buf x) lines ++ rest)
        full (at_full buf)
]
  where
    at_full :
        (buf : List (ℕ × Text))
        → keep m (length buf) buf (l ∷ lines) ++ shown_if (near m (length buf) lines) x rest
          ≡ keep m (length buf) (remember (length buf) buf x) lines ++ rest
    at_full [] = refl
    at_full (b ∷ buf) =
        let one : suc (length buf) - length buf ≡ 1 = omega arith in
        rw (remember-full b buf x, one, h)
          (keep-snoc m (suc (length buf)) buf x l lines rest (omega arith) h)

pub length-remember :
    (before : ℕ) (buf : List (ℕ × Text)) (x : ℕ × Text)
    → length buf ≤ before
    → length (remember before buf x) ≤ before
length-remember before buf x le = elim (room before buf le) [
  | inl short ↦ rw (remember-short before buf x short, length-append buf (x ∷ [])) (omega arith)
  | inr full ↦ subst (λ k. length (remember k buf x) ≤ k) full (at_full buf)
]
  where
    at_full : (buf : List (ℕ × Text)) → length (remember (length buf) buf x) ≤ length buf
    at_full [] = omega arith
    at_full (b ∷ buf) = rw (remember-full b buf x, length-append buf (x ∷ [])) (omega arith)
