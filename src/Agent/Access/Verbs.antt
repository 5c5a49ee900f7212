-- ===== src/Agent/Access/Verbs.antt =====
-- The verb of a command line, through the pipe and the arguments, of rthas/src/agent.rs.
use rthas.Prelude.{
  ℕ, ◌≡◌, refl, sym, ap, subst, ◌∙◌, inl, inr, Bool, true, false, false≢true, ◌&&◌, ◌||◌, List, [],
  ◌∷◌, arith, ◌==◌, if◌then◌else◌, ==_iff, Bool-cases, Text, is_empty, is_whitespace, cons_head,
  split, contains_char,
}
use rthas.Prelude.{split_whitespace, trim, trim_start, trim_end_matches}
use rthas.Jobs.Lines.{split_whitespace-char}
use rthas.Pipe.{first_word}

-- The letters up to the first space, and those of the first word.
abbrev pub letters : Text → Text
letters [] = []
letters (c ∷ s) = if is_whitespace c then [] else c ∷ letters s

abbrev pub lead : Text → Text
lead [] = []
lead (c ∷ s) = if is_whitespace c then lead s else c ∷ letters s

abbrev pub head_word : List Text → Text
head_word [] = []
head_word (w ∷ ws) = w

head_word-cons_head : (c : ℕ) (ws : List Text) → head_word (cons_head c ws) ≡ c ∷ head_word ws
head_word-cons_head c [] = refl
head_word-cons_head c (w ∷ ws) = refl

split_whitespace-letters :
    (c : ℕ) (s : Text)
    → is_whitespace c ≡ false
    → head_word (split_whitespace (c ∷ s)) ≡ c ∷ letters s
split_whitespace-letters c [] h = rw (split_whitespace-char c [] h) refl
split_whitespace-letters c (d ∷ s) h =
    rw (split_whitespace-char c (d ∷ s) h) (elim (Bool-cases (is_whitespace d)) [
      | inl gap ↦ rw gap refl
      | inr more ↦ rw more (
          head_word-cons_head c (split_whitespace (d ∷ s))
          ∙ ap (◌∷◌ c) (split_whitespace-letters d s more))
    ])

split_whitespace-gap :
    (c : ℕ) (s : Text) → is_whitespace c ≡ true → split_whitespace (c ∷ s) ≡ split_whitespace s
unfolding split_whitespace
split_whitespace-gap c s h = rw h refl

pub split_whitespace-lead : (s : Text) → head_word (split_whitespace s) ≡ lead s
split_whitespace-lead [] = unfold split_whitespace in refl
split_whitespace-lead (c ∷ s) = elim (Bool-cases (is_whitespace c)) [
  | inl gap ↦ rw (split_whitespace-gap c s gap, gap) (split_whitespace-lead s)
  | inr more ↦ split_whitespace-letters c s more ∙ rw more refl
]

pub first_word-lead : (s : Text) → first_word s ≡ lead s
unfolding first_word
first_word-lead s = same (split_whitespace s) (split_whitespace-lead s)
  where
    same : (ws : List Text) → head_word ws ≡ lead s → elim ws [ [] ↦ [] | w ∷ rest ↦ w ] ≡ lead s
    same [] e = e
    same (w ∷ ws) e = e

-- The piece in front of the first bar.
abbrev pub uncut : Text → Text
uncut [] = []
uncut (c ∷ s) = if c == b'|' then [] else c ∷ uncut s

pub head_word-split : (s : Text) → head_word (split b'|' s) ≡ uncut s
unfolding split
head_word-split [] = refl
head_word-split (c ∷ s) = elim (Bool-cases (c == b'|')) [
  | inl bar ↦ rw bar refl
  | inr other ↦ rw other (head_word-cons_head c (split b'|' s) ∙ ap (◌∷◌ c) (head_word-split s))
]

letters-uncut : (s : Text) → contains_char b'|' (letters s) ≡ false → letters (uncut s) ≡ letters s
unfolding contains_char is_whitespace
letters-uncut [] h = refl
letters-uncut (c ∷ s) h = elim (Bool-cases (is_whitespace c)) [
  | inl gap ↦ elim (Bool-cases (c == b'|')) [
    | inl bar ↦ rw (bar, gap) refl
    | inr other ↦ rw (other, gap) refl
  ]
  | inr more ↦
      let h' : ((c == b'|') || contains_char b'|' (letters s)) ≡ false = rw more at h in
      elim (Bool-cases (c == b'|')) [
        | inl bar ↦ absurd (true_or (c == b'|') (contains_char b'|' (letters s)) bar h')
        | inr other ↦ rw (other, more) (ap (◌∷◌ c) (letters-uncut s (ground arith)))
      ]
]
  where
    true_or : (a b : Bool) → a ≡ true → (a || b) ≡ false → ⊥
    true_or true b e h = false≢true (sym h)
    true_or false b e h = false≢true e

bar_shown : is_whitespace b'|' ≡ false
unfolding is_whitespace
bar_shown = refl

pub lead-uncut : (s : Text) → contains_char b'|' (lead s) ≡ false → lead (uncut s) ≡ lead s
unfolding contains_char
lead-uncut [] h = refl
lead-uncut (c ∷ s) h = elim (Bool-cases (is_whitespace c)) [
  | inl gap ↦
      let other : (c == b'|') ≡ false = bar_visible c gap in
      let h' : contains_char b'|' (lead s) ≡ false = rw gap at h in
      rw (other, gap) (lead-uncut s h')
  | inr more ↦
      let h' : ((c == b'|') || contains_char b'|' (letters s)) ≡ false = rw more at h in
      elim (Bool-cases (c == b'|')) [
        | inl bar ↦ absurd (true_or (c == b'|') (contains_char b'|' (letters s)) bar h')
        | inr other ↦ rw (other, more) (ap (◌∷◌ c) (letters-uncut s (ground arith)))
      ]
]
  where
    true_or : (a b : Bool) → a ≡ true → (a || b) ≡ false → ⊥
    true_or true b e h = false≢true (sym h)
    true_or false b e h = false≢true e

    bar_visible : (c : ℕ) → is_whitespace c ≡ true → (c == b'|') ≡ false
    bar_visible c gap = elim (Bool-cases (c == b'|')) [
      | inl bar ↦
          let e : c ≡ b'|' = (==_iff c b'|').0 bar in
          let no : is_whitespace b'|' ≡ true = subst (λ k. is_whitespace k ≡ true) e gap in
          absurd (false≢true (sym bar_shown ∙ no))
      | inr other ↦ other
    ]

lead-trim_start : (s : Text) → lead (trim_start s) ≡ lead s
unfolding trim_start
lead-trim_start [] = refl
lead-trim_start (c ∷ s) = elim (Bool-cases (is_whitespace c)) [
  | inl gap ↦ rw gap (lead-trim_start s)
  | inr more ↦ rw more (rw more refl)
]

letters-trim_end : (s : Text) → letters (trim_end_matches is_whitespace s) ≡ letters s
unfolding trim_end_matches
letters-trim_end [] = refl
letters-trim_end (c ∷ s) = ground (arith, letters-trim_end s)

lead-trim_end : (s : Text) → lead (trim_end_matches is_whitespace s) ≡ lead s
unfolding trim_end_matches
lead-trim_end [] = refl
lead-trim_end (c ∷ s) = elim (Bool-cases (is_whitespace c)) [
  | inl gap ↦ kept (trim_end_matches is_whitespace s) gap (lead-trim_end s)
  | inr more ↦ rw more (shown (trim_end_matches is_whitespace s) more (letters-trim_end s))
]
  where
    kept :
        (rest : Text)
        → is_whitespace c ≡ true
        → lead rest ≡ lead s
        → lead (if is_empty rest && is_whitespace c then [] else c ∷ rest)
          ≡ (if is_whitespace c then lead s else c ∷ letters s)
    kept [] gap e = rw gap e
    kept (d ∷ rest) gap e = rw gap e

    shown :
        (rest : Text)
        → is_whitespace c ≡ false
        → letters rest ≡ letters s
        → lead (if is_empty rest && false then [] else c ∷ rest) ≡ c ∷ letters s
    shown [] more e = rw more (ap (◌∷◌ c) e)
    shown (d ∷ rest) more e = rw more (ap (◌∷◌ c) e)

pub lead-trim : (s : Text) → lead (trim s) ≡ lead s
unfolding trim
lead-trim s = lead-trim_end (trim_start s) ∙ lead-trim_start s
