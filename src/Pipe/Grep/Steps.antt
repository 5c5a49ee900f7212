-- ===== src/Pipe/Grep/Steps.antt =====
-- One line at a time: what `Grep::feed` of rthas/src/pipe.rs does with it where there is no limit on
-- the matches and the lines are shown.
use rthas.Prelude.{
  ℕ, suc, ◌+◌, ◌-◌, ◌<◌, ◌≡◌, refl, inl, inr, true, false, List, [], ◌∷◌, ◌++◌, map, arith, ltb,
  if◌then◌else◌, Bool-cases, u64_mod, succ_u64, succ_u64-eq, Text,
}
use rthas.Pipe.Grep.{Grep, matches, format, stopped, trim_buf, feed_hit, feed_miss, feed}

-- The same options at another point of the input.
abbrev pub at_line : Grep → ℕ → ℕ → ℕ → List (ℕ × Text) → Grep
at_line g n h a buf = record g { line_no = n; hits = h; pending_after = a; before_buf = buf }

-- The lines to remember.
abbrev pub remember : ℕ → List (ℕ × Text) → ℕ × Text → List (ℕ × Text)
remember before buf x = if ltb 0 before then trim_buf before (buf ++ x ∷ []) else buf

-- Every line is shown, and none is too many.
abbrev pub ShowsAll : Grep → Type 0
ShowsAll g = (g.max_count ≡ 0) × (g.count_only ≡ false)

stopped-never : (g : Grep) → g.max_count ≡ 0 → stopped g ≡ false
unfolding stopped
stopped-never g e = rw e

pub matches-at_line :
    (g : Grep) (n h a : ℕ) (buf : List (ℕ × Text)) (line : Text)
    → matches (at_line g n h a buf) line ≡ matches g line
unfolding matches
matches-at_line g n h a buf line = refl

pub feed-hit :
    (g : Grep) (n h a : ℕ) (buf : List (ℕ × Text)) (line : Text)
    → ShowsAll g
    → n + 1 < u64_mod
    → matches g line ≡ true
    → feed (at_line g n h a buf) line ≡ (
      at_line g (n + 1) (succ_u64 h) g.after [],
      map (format g) buf ++ format g (n + 1, line) ∷ [],
    )
unfolding feed feed_hit format
feed-hit g n h a buf line (e, c) lt m = rw (
  stopped-never (at_line g n h a buf) e,
  matches-at_line g n h a buf line,
  m,
  succ_u64-eq n lt,
  c,
)

pub feed-after :
    (g : Grep) (n h a : ℕ) (buf : List (ℕ × Text)) (line : Text)
    → ShowsAll g
    → n + 1 < u64_mod
    → matches g line ≡ false
    → feed (at_line g n h (suc a) buf) line
      ≡ (at_line g (n + 1) h a buf, format g (n + 1, line) ∷ [])
unfolding feed feed_miss format
feed-after g n h a buf line (e, c) lt m =
    let some_owed : ltb 0 (suc a) ≡ true = ground arith in
    let one_less : suc a - 1 ≡ a = omega arith in
    rw (
      stopped-never (at_line g n h (suc a) buf) e,
      matches-at_line g n h (suc a) buf line,
      m,
      succ_u64-eq n lt,
      c,
      some_owed,
      one_less,
    )

pub feed-miss :
    (g : Grep) (n h : ℕ) (buf : List (ℕ × Text)) (line : Text)
    → ShowsAll g
    → n + 1 < u64_mod
    → matches g line ≡ false
    → feed (at_line g n h 0 buf) line
      ≡ (at_line g (n + 1) h 0 (remember g.before buf (n + 1, line)), [])
unfolding feed feed_miss
feed-miss g n h buf line (e, c) lt m = elim (Bool-cases (ltb 0 g.before)) [
  | inl some_before ↦ rw (
    stopped-never (at_line g n h 0 buf) e,
    matches-at_line g n h 0 buf line,
    m,
    succ_u64-eq n lt,
    c,
    some_before,
  )
  | inr none_before ↦ rw (
    stopped-never (at_line g n h 0 buf) e,
    matches-at_line g n h 0 buf line,
    m,
    succ_u64-eq n lt,
    c,
    none_before,
  )
]
