-- ===== src/Pipe/Grep/Count.antt =====
-- `grep -c` and `grep -m` of rthas/src/pipe.rs.
use rthas.Prelude.{
  ℕ, zero, suc, ◌+◌, ◌≤◌, ◌<◌, min, ◌≡◌, refl, sym, ap, ◌∙◌, ◌⊎◌, inl, inr, Bool, true, false, not,
  ◌&&◌, List, [], ◌∷◌, arith, ltb, ◌==◌, if◌then◌else◌, Bool-cases, length, add-zero, u64_mod,
  succ_u64-eq, Text, to_text,
}
use rthas.Pipe.Grep.{
  Grep, matches, stopped, count_line, feed_hit, feed_miss, feed, finish, feed_all,
}
use rthas.Pipe.Grep.Shown.{IsNew}

-- How many matches are counted, of `found` in all: every one where there is no limit.
abbrev pub limited : ℕ → ℕ → ℕ
limited zero found = found
limited (suc most) found = min (suc most) found

abbrev pub count : (Text → Bool) → List Text → ℕ
count m [] = 0
count m (l ∷ lines) = if m l then suc (count m lines) else count m lines

-- Only the four counters of a stage change.
feed_miss-hits : (g : Grep) (line : Text) → (feed_miss g line).0.hits ≡ g.hits
unfolding feed_miss
feed_miss-hits g line = ground arith

abbrev Same : Grep → Grep → Type 0
Same g g1 = (matches g1 ≡ matches g) × (g1.max_count ≡ g.max_count) × (g1.count_only ≡ g.count_only)

feed_miss-Same : (g : Grep) (line : Text) → Same g (feed_miss g line).0
unfolding feed_miss matches
feed_miss-Same g line = elim (Bool-cases (ltb 0 g.pending_after)) [
  | inl h ↦ rw h (refl, refl, refl)
  | inr h ↦ elim (Bool-cases (ltb 0 g.before && not g.count_only)) [
    | inl k ↦ rw (h, k) (refl, refl, refl)
    | inr k ↦ rw (h, k) (refl, refl, refl)
  ]
]

feed_hit-Same : (g : Grep) (line : Text) → Same g (feed_hit g line).0
unfolding feed_hit matches
feed_hit-Same g line = elim (Bool-cases (stopped g)) [
  | inl h ↦ rw h (refl, refl, refl)
  | inr h ↦ rw h (refl, refl, refl)
]

feed-Same : (g : Grep) (line : Text) → Same g (feed g line).0
unfolding feed matches
feed-Same g line = elim (Bool-cases (stopped g && g.pending_after == 0)) [
  | inl h ↦ rw h (refl, refl, refl)
  | inr h ↦ elim (Bool-cases (matches g line)) [
    | inl k ↦ rw (h, k) (feed_hit-Same (count_line g) line)
    | inr k ↦ rw (h, k) (feed_miss-Same (count_line g) line)
  ]
]

stopped-count_line : (g : Grep) → stopped (count_line g) ≡ stopped g
unfolding stopped
stopped-count_line g = refl

feed_hit-hits :
    (g : Grep) (line : Text)
    → g.hits + 1 < u64_mod
    → (feed_hit g line).0.hits ≡ (if stopped g then g.hits else g.hits + 1)
unfolding feed_hit
feed_hit-hits g line lt = elim (Bool-cases (stopped g)) [
  | inl h ↦ rw h
  | inr h ↦ rw h (succ_u64-eq g.hits lt)
]

-- A line that matches counts, unless the limit is reached.
feed-hits :
    (g : Grep) (line : Text)
    → g.hits + 1 < u64_mod
    → (feed g line).0.hits
      ≡ (if matches g line then (if stopped g then g.hits else g.hits + 1) else g.hits)
unfolding feed
feed-hits g line lt = elim (Bool-cases (stopped g && g.pending_after == 0)) [
  | inl h ↦
      rw (h, and_left (stopped g) (g.pending_after == 0) h) (sym (if_same (matches g line) g.hits))
  | inr h ↦ elim (Bool-cases (matches g line)) [
    | inl k ↦ rw (h, k) (feed_hit-hits (count_line g) line lt ∙ rw (stopped-count_line g))
    | inr k ↦ rw (h, k) (feed_miss-hits (count_line g) line)
  ]
]
  where
    and_left : (a b : Bool) → (a && b) ≡ true → a ≡ true
    and_left true b e = refl
    and_left false b e = e

    if_same : (b : Bool) (n : ℕ) → (if b then n else n) ≡ n
    if_same true n = refl
    if_same false n = refl

-- The limit is kept: there is none, or it is not passed.
abbrev Fits : ℕ → ℕ → Type 0
Fits most hits = (most ≡ 0) ⊎ (hits ≤ most)

limited-zero : (most found : ℕ) → most ≡ 0 → limited most found ≡ found
limited-zero zero found e = refl
limited-zero (suc most) found e = absurd (omega arith)

limited-some : (most found : ℕ) → 1 ≤ most → limited most found ≡ min most found
limited-some zero found h = absurd (omega arith)
limited-some (suc most) found h = refl

limited-Fits : (most hits : ℕ) → Fits most hits → limited most hits ≡ hits
limited-Fits most hits (inl e) = limited-zero most hits e
limited-Fits zero hits (inr le) = refl
limited-Fits (suc most) hits (inr le) = omega arith

stopped→Passed : (g : Grep) → stopped g ≡ true → (1 ≤ g.max_count) × (g.max_count ≤ g.hits)
unfolding stopped
stopped→Passed g h = ground arith

stopped-Fits :
    (g : Grep) → stopped g ≡ false → Fits g.max_count g.hits → Fits g.max_count (g.hits + 1)
unfolding stopped
stopped-Fits g h fits = ground arith

limited-stopped :
    (g : Grep) (more : ℕ) → stopped g ≡ true → limited g.max_count (g.hits + more) ≡ g.max_count
limited-stopped g more h =
    let (some_limit, passed) = stopped→Passed g h in
    limited-some g.max_count (g.hits + more) some_limit ∙ omega arith

-- A line's part of the count.
next-limited :
    (g : Grep) (l : Text) (hits' more : ℕ)
    → Fits g.max_count g.hits
    → hits' ≡ (if matches g l then (if stopped g then g.hits else g.hits + 1) else g.hits)
    → Fits g.max_count hits'
      × (limited g.max_count (hits' + more)
          ≡ limited g.max_count (g.hits + (if matches g l then suc more else more)))
next-limited g l hits' more fits e = elim (Bool-cases (matches g l)) [
  | inr miss ↦ let same : hits' ≡ g.hits = (rw miss at e) in rw (same, miss) (fits, refl)
  | inl hit ↦ elim (Bool-cases (stopped g)) [
    | inl st ↦
        let same : hits' ≡ g.hits = (rw (hit, st) at e) in
        rw (same, hit) (fits, limited-stopped g more st ∙ sym (limited-stopped g (suc more) st))
    | inr st ↦
        let same : hits' ≡ g.hits + 1 = (rw (hit, st) at e) in
        rw (same, hit) (stopped-Fits g st fits, ap (limited g.max_count) (omega arith))
  ]
]

hits-le : (g : Grep) (l : Text) → g.hits + 1 < u64_mod → (feed g l).0.hits ≤ g.hits + 1
hits-le g l lt = elim (Bool-cases (matches g l)) [
  | inr miss ↦ rw (feed-hits g l lt, miss) (omega arith)
  | inl hit ↦ elim (Bool-cases (stopped g)) [
    | inl st ↦ rw (feed-hits g l lt, hit, st) (omega arith)
    | inr st ↦ rw (feed-hits g l lt, hit, st) (omega arith)
  ]
]

-- The count of a run, from any point at which the limit is kept.
feed_all-hits :
    (g : Grep) (lines : List Text)
    → g.hits + length lines < u64_mod
    → Fits g.max_count g.hits
    → (feed_all g lines).0.hits ≡ limited g.max_count (g.hits + count (matches g) lines)
unfolding feed_all
feed_all-hits g [] lt fits = rw (add-zero g.hits) (sym (limited-Fits g.max_count g.hits fits))
feed_all-hits g (l ∷ lines) lt fits =
    let g1 = (feed g l).0 in
    let (m, most, only) = feed-Same g l in
    let le = hits-le g l (omega arith) in
    let (fits1, next) =
      next-limited g l g1.hits (count (matches g) lines) fits (feed-hits g l (omega arith)) in
    feed_all-hits g1 lines (omega arith) (rw most fits1) ∙ rw (m, most) next

feed_all-only : (g : Grep) (lines : List Text) → (feed_all g lines).0.count_only ≡ g.count_only
unfolding feed_all
feed_all-only g [] = refl
feed_all-only g (l ∷ lines) =
    let (m, most, only) = feed-Same g l in feed_all-only (feed g l).0 lines ∙ only

-- `grep -c` on an input of fewer than 2^64 lines answers the number of its lines that match, or the
-- limit of `-m` where there is one and more of them match, whatever its other options.
pub finish-feed_all :
    (g : Grep) (lines : List Text)
    → IsNew g
    → g.count_only ≡ true
    → length lines < u64_mod
    → finish (feed_all g lines).0 ≡ to_text (limited g.max_count (count (matches g) lines)) ∷ []
unfolding finish
finish-feed_all g lines new only lt =
    let (n, h, a, buf) = new in
    let shown : (feed_all g lines).0.count_only ≡ true = feed_all-only g lines ∙ only in
    let all : (feed_all g lines).0.hits ≡ limited g.max_count (g.hits + count (matches g) lines) =
      feed_all-hits g lines (omega arith) (inr (omega arith)) in
    rw (shown, all, h) (ap (λ k. to_text (limited g.max_count k) ∷ []) (omega arith))
