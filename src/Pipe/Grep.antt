-- ===== src/Pipe/Grep.antt =====
-- `Grep` of rthas/src/pipe.rs: the options of a `grep` stage and what it lets through, line by line.
pub mod Parse
pub mod Steps
pub mod Context
pub mod Shown
pub mod Count
use rthas.Prelude.{
  ℕ, ◌-◌, Bool, not, ◌&&◌, List, [], ◌∷◌, ◌++◌, map, ◌==◌, ltb, leb, if◌then◌else◌, length, Text,
  contains, to_ascii_lowercase, to_text, succ_u64,
}

pub record Grep : Type 0 where
  pub pattern : Text
  pub ignore_case : Bool
  pub invert : Bool
  pub line_number : Bool
  pub count_only : Bool
  pub max_count : ℕ
  pub before : ℕ
  pub after : ℕ
  pub line_no : ℕ
  pub hits : ℕ
  pub pending_after : ℕ
  pub before_buf : List (ℕ × Text)

unfoldable pub matches : Grep → Text → Bool
matches g line =
    let hit =
      if g.ignore_case
      then contains (to_ascii_lowercase line) (to_ascii_lowercase g.pattern)
      else contains line g.pattern in
    if g.invert then not hit else hit

unfoldable pub format : Grep → ℕ × Text → Text
format g (n, line) = if g.line_number then to_text n ++ b':' ∷ line else line

unfoldable pub stopped : Grep → Bool
stopped g = ltb 0 g.max_count && leb g.max_count g.hits

-- `while self.before_buf.len() > self.before { pop_front }`, after one line was pushed.
unfoldable pub trim_buf : ℕ → List (ℕ × Text) → List (ℕ × Text)
trim_buf before [] = []
trim_buf before (x ∷ xs) =
    let rest = trim_buf before xs in if ltb before (length (x ∷ xs)) then rest else x ∷ xs

-- A line that matches.
unfoldable pub feed_hit : Grep → Text → Grep × List Text
unfolding format stopped
feed_hit g line =
    let n = g.line_no in
    if stopped g then (g, []) else (
      record g { hits = succ_u64 g.hits; pending_after = g.after; before_buf = [] },
      if g.count_only then [] else map (format g) g.before_buf ++ format g (n, line) ∷ [],
    )

-- A line that does not: one of the lines after a match, or one to remember.
unfoldable pub feed_miss : Grep → Text → Grep × List Text
unfolding format trim_buf
feed_miss g line =
    let n = g.line_no in
    if ltb 0 g.pending_after
    then (
      record g { pending_after = g.pending_after - 1 },
      if g.count_only then [] else format g (n, line) ∷ [],
    )
    else if ltb 0 g.before && not g.count_only
    then (record g { before_buf = trim_buf g.before (g.before_buf ++ (n, line) ∷ []) }, [])
    else (g, [])

-- `self.line_no += 1`.
abbrev pub count_line : Grep → Grep
count_line g = record g { line_no = succ_u64 g.line_no }

unfoldable pub feed : Grep → Text → Grep × List Text
unfolding stopped matches feed_hit feed_miss
feed g line =
    if stopped g && g.pending_after == 0
    then (g, [])
    else if matches g line
    then feed_hit (count_line g) line
    else feed_miss (count_line g) line

unfoldable pub finish : Grep → List Text
finish g = if g.count_only then to_text g.hits ∷ [] else []

-- A run of lines.
unfoldable pub feed_all : Grep → List Text → Grep × List Text
feed_all g [] = (g, [])
feed_all g (line ∷ lines) =
    let (g1, out1) = feed g line in let (g2, out2) = feed_all g1 lines in (g2, out1 ++ out2)
