-- ===== src/History.antt =====
-- rthas/src/history.rs: the commands of the process, for `history`.
pub mod Newest
use rthas.Prelude.{
  ℕ, ◌-◌, ◌+◌, zero, suc, ◌||◌, List, [], ◌∷◌, ◌++◌, ◌==◌, leb, ltb, if◌then◌else◌, length, drop,
  Text, codes, is_empty, trim, to_text,
}

abbrev pub cap : ℕ
cap = 500

-- `h.len() > CAP` after the push: what is too much is drained from the front.
abbrev pub keep_cap : List Text → List Text
keep_cap h = if ltb cap (length h) then drop (length h - cap) h else h

unfoldable pub record_line : Text → List Text → List Text
unfolding trim
record_line line h = if is_empty (trim line) then h else keep_cap (h ++ trim line ∷ [])

-- Where the rendered slice starts.
unfoldable pub start_of : ℕ → List Text → ℕ
start_of last_n all = if last_n == 0 || leb (length all) last_n then 0 else length all - last_n

-- `{:>5}`.
unfoldable pub pad_left : ℕ → Text → Text
pad_left zero s = s
pad_left (suc width) s =
    let rest = pad_left width s in if leb (suc width) (length s) then s else b' ' ∷ rest

abbrev pub row : ℕ → Text → Text
row n line = pad_left 5 (to_text n) ++ (codes "  " ++ (line ++ b'\n' ∷ []))

-- The rows of lines that are numbered on from `n`.
abbrev pub rows : ℕ → List Text → Text
rows n [] = []
rows n (line ∷ lines) = row n line ++ rows (n + 1) lines

abbrev pub or_empty : Text → Text
or_empty out = if is_empty out then codes "(empty)\n" else out

unfoldable pub render : ℕ → List Text → Text
unfolding start_of pad_left to_text
render last_n all = or_empty (rows (start_of last_n all + 1) (drop (start_of last_n all) all))
