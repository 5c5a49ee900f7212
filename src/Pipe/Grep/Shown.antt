-- ===== src/Pipe/Grep/Shown.antt =====
-- A whole input through `grep` with context, of rthas/src/pipe.rs.
use rthas.Prelude.{
  ℕ, zero, suc, ◌+◌, ◌-◌, ◌≤◌, ◌<◌, ◌≡◌, refl, sym, ap, ap₂, ◌∙◌, ◌⊎◌, inl, inr, Bool, true, false,
  ◌||◌, List, [], ◌∷◌, ◌++◌, map, append_assoc, arith, Bool-cases, length, u64_mod, succ_u64, Text,
}
use rthas.Pipe.Grep.{Grep, matches, format, feed, feed_all}
use rthas.Pipe.Grep.Steps.{at_line, remember, ShowsAll, feed-hit, feed-after, feed-miss}
use rthas.Pipe.Grep.Context.{
  near, in_context, owed, keep, shown_if, near-owed, keep-hit, keep-remember, length-remember,
}

map-append {ℓ κ} :
    {A : Type ℓ} {B : Type κ} (f : A → B) (xs ys : List A) → map f (xs ++ ys) ≡ map f xs ++ map f ys
map-append f [] ys = refl
map-append f (x ∷ xs) ys = ap (◌∷◌ (f x)) (map-append f xs ys)

-- The outputs of a run, by the first line.
feed_all-next :
    (g g1 : Grep) (line : Text) (lines out : List Text)
    → feed g line ≡ (g1, out)
    → (feed_all g (line ∷ lines)).1 ≡ out ++ (feed_all g1 lines).1
unfolding feed_all
feed_all-next g g1 line lines out e = rw e

in_context-next :
    (m : Text → Bool) (before after n : ℕ) (past : List Text) (l : Text) (lines : List Text)
    (shown : Bool)
    → (near m after past || (m l || near m before lines)) ≡ shown
    → in_context m before after past n (l ∷ lines)
      ≡ shown_if shown (n + 1, l) (in_context m before after (l ∷ past) (n + 1) lines)
in_context-next m before after n past l lines true e = rw e
in_context-next m before after n past l lines false e = rw e

keep-end : (m : Text → Bool) (before : ℕ) (buf : List (ℕ × Text)) → keep m before buf [] ≡ []
keep-end m before [] = refl
keep-end m before (b ∷ buf) = rw (near-end m (before - length buf)) (keep-end m before buf)
  where
    near-end : (m : Text → Bool) (k : ℕ) → near m k [] ≡ false
    near-end m zero = refl
    near-end m (suc k) = refl

-- What `feed` answers for a line, and what the context options promise, with the rest of the input
-- settled: a match, a line owed to one, and a line to remember.
next-hit :
    (g : Grep) (lines past : List Text) (l : Text) (n h a : ℕ) (buf : List (ℕ × Text))
    → ShowsAll g
    → n + 1 < u64_mod
    → length buf ≤ g.before
    → matches g l ≡ true
    → (feed_all (at_line g (n + 1) (succ_u64 h) g.after []) lines).1
      ≡ map (format g) (in_context (matches g) g.before g.after (l ∷ past) (n + 1) lines)
    → (feed_all (at_line g n h a buf) (l ∷ lines)).1
      ≡ map (format g) (
          keep (matches g) g.before buf (l ∷ lines)
          ++ in_context (matches g) g.before g.after past n (l ∷ lines))
next-hit g lines past l n h a buf shows lt le hit rest =
    let m = matches g in
    let shown : (near m g.after past || (m l || near m g.before lines)) ≡ true =
      rw hit (or_true (near m g.after past)) in
    let tail = in_context m g.before g.after (l ∷ past) (n + 1) lines in
    feed_all-next (at_line g n h a buf) (at_line g (n + 1) (succ_u64 h) g.after []) l lines
      (map (format g) buf ++ format g (n + 1, l) ∷ []) (feed-hit g n h a buf l shows lt hit)
    ∙ ap (◌++◌ (map (format g) buf ++ format g (n + 1, l) ∷ [])) rest
    ∙ append_assoc (map (format g) buf) (format g (n + 1, l) ∷ []) (map (format g) tail)
    ∙ sym (map-append (format g) buf ((n + 1, l) ∷ tail))
    ∙ ap (map (format g)) (
        ap₂ (λ xs ys. xs ++ ys) (sym (keep-hit m g.before buf l lines le hit))
          (sym (in_context-next m g.before g.after n past l lines true shown)))
  where
    or_true : (b : Bool) → (b || true) ≡ true
    or_true true = refl
    or_true false = refl

next-after :
    (g : Grep) (lines past : List Text) (l : Text) (n h a : ℕ)
    → ShowsAll g
    → n + 1 < u64_mod
    → matches g l ≡ false
    → owed (matches g) g.after past ≡ suc a
    → (feed_all (at_line g (n + 1) h a []) lines).1
      ≡ map (format g) (in_context (matches g) g.before g.after (l ∷ past) (n + 1) lines)
    → (feed_all (at_line g n h (suc a) []) (l ∷ lines)).1
      ≡ map (format g) (in_context (matches g) g.before g.after past n (l ∷ lines))
next-after g lines past l n h a shows lt miss e rest =
    let m = matches g in
    let recent : near m g.after past ≡ true =
      near-owed m g.after g.after past (omega arith) ∙ rw e (ground arith) in
    feed_all-next (at_line g n h (suc a) []) (at_line g (n + 1) h a []) l lines
      (format g (n + 1, l) ∷ []) (feed-after g n h a [] l shows lt miss)
    ∙ ap (◌∷◌ (format g (n + 1, l))) rest
    ∙ ap (map (format g)) (sym (in_context-next m g.before g.after n past l lines true (rw recent)))

next-miss :
    (g : Grep) (lines past : List Text) (l : Text) (n h : ℕ) (buf : List (ℕ × Text))
    → ShowsAll g
    → n + 1 < u64_mod
    → length buf ≤ g.before
    → matches g l ≡ false
    → owed (matches g) g.after past ≡ 0
    → (feed_all (at_line g (n + 1) h 0 (remember g.before buf (n + 1, l))) lines).1
      ≡ map (format g) (
          keep (matches g) g.before (remember g.before buf (n + 1, l)) lines
          ++ in_context (matches g) g.before g.after (l ∷ past) (n + 1) lines)
    → (feed_all (at_line g n h 0 buf) (l ∷ lines)).1
      ≡ map (format g) (
          keep (matches g) g.before buf (l ∷ lines)
          ++ in_context (matches g) g.before g.after past n (l ∷ lines))
next-miss g lines past l n h buf shows lt le miss e rest =
    let m = matches g in
    let tail = in_context m g.before g.after (l ∷ past) (n + 1) lines in
    let stale : near m g.after past ≡ false =
      near-owed m g.after g.after past (omega arith) ∙ rw e (ground arith) in
    feed_all-next (at_line g n h 0 buf) (at_line g (n + 1) h 0 (remember g.before buf (n + 1, l))) l
      lines [] (feed-miss g n h buf l shows lt miss)
    ∙ rest
    ∙ ap (map (format g)) (
        sym (keep-remember m g.before buf (n + 1, l) l lines tail le miss)
        ∙ ap (λ ys. keep m g.before buf (l ∷ lines) ++ ys)
            (sym (
              in_context-next m g.before g.after n past l lines (near m g.before lines)
                (rw (stale, miss)))))

-- The line reached owes what the past says; lines are remembered only where nothing is owed.
run-at_line :
    (g : Grep) (lines past : List Text) (n h a : ℕ) (buf : List (ℕ × Text))
    → ShowsAll g
    → n + length lines < u64_mod
    → owed (matches g) g.after past ≡ a
    → length buf ≤ g.before
    → (a ≡ 0) ⊎ (buf ≡ [])
    → (feed_all (at_line g n h a buf) lines).1
      ≡ map (format g) (
          keep (matches g) g.before buf lines
          ++ in_context (matches g) g.before g.after past n lines)
unfolding feed_all
run-at_line g [] past n h a buf shows lt e le free = rw (keep-end (matches g) g.before buf)
run-at_line g (l ∷ lines) past n h zero buf shows lt e le free = elim (Bool-cases (matches g l)) [
  | inl hit ↦ next-hit g lines past l n h 0 buf shows (omega arith) le hit (
      run-at_line g lines (l ∷ past) (n + 1) (succ_u64 h) g.after [] shows (omega arith) (rw hit)
        (omega arith) (inr refl))
  | inr miss ↦ next-miss g lines past l n h buf shows (omega arith) le miss e (
      run-at_line g lines (l ∷ past) (n + 1) h 0 (remember g.before buf (n + 1, l)) shows
        (omega arith) (rw (miss, e)) (length-remember g.before buf (n + 1, l) le) (inl refl))
]
run-at_line g (l ∷ lines) past n h (suc a) buf shows lt e le (inl done) = absurd (omega arith)
run-at_line g (l ∷ lines) past n h (suc a) [] shows lt e le (inr empty) =
    elim (Bool-cases (matches g l)) [
      | inl hit ↦ next-hit g lines past l n h (suc a) [] shows (omega arith) le hit (
          run-at_line g lines (l ∷ past) (n + 1) (succ_u64 h) g.after [] shows (omega arith)
            (rw hit) (omega arith) (inr refl))
      | inr miss ↦ next-after g lines past l n h a shows (omega arith) miss e (
          run-at_line g lines (l ∷ past) (n + 1) h a [] shows (omega arith)
            (rw (miss, e) (omega arith)) (omega arith) (inr refl))
    ]
run-at_line g (l ∷ lines) past n h (suc a) (b ∷ buf) shows lt e le (inr empty) = cc

-- A `grep` that has read nothing yet.
abbrev pub IsNew : Grep → Type 0
IsNew g = (g.line_no ≡ 0) × (g.hits ≡ 0) × (g.pending_after ≡ 0) × (g.before_buf ≡ [])

-- A `grep` that shows its lines and has no limit on the matches lets through, of an input of fewer
-- than 2^64 lines, exactly the lines in the context of a match, each once and in order, numbered
-- from 1 where it numbers them: a line is in context where it matches, where one of the `after`
-- lines in front of it does, or one of the `before` lines behind it.
pub feed_all-in_context :
    (g : Grep) (lines : List Text)
    → IsNew g
    → g.max_count ≡ 0
    → g.count_only ≡ false
    → length lines < u64_mod
    → (feed_all g lines).1 ≡ map (format g) (in_context (matches g) g.before g.after [] 0 lines)
feed_all-in_context g lines (n, h, a, buf) limit show lt =
    ap (λ x. (feed_all x lines).1) (fresh n h a buf)
    ∙ run-at_line g lines [] 0 0 0 [] (limit, show) (omega arith) refl (omega arith) (inl refl)
  where
    fresh :
        g.line_no ≡ 0
        → g.hits ≡ 0
        → g.pending_after ≡ 0
        → g.before_buf ≡ []
        → g ≡ at_line g 0 0 0 []
    fresh n h a buf =
        λ i. record g { line_no = n i; hits = h i; pending_after = a i; before_buf = buf i }
