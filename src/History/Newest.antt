-- ===== src/History/Newest.antt =====
-- What the history of rthas/src/history.rs holds.
use rthas.Prelude.{
  ◌+◌, ◌-◌, ◌≡◌, sym, ap, ◌∙◌, inl, inr, List, [], ◌∷◌, ◌++◌, append-nil, append_assoc, arith, ltb,
  if◌then◌else◌, Bool-cases, length, drop, length-append, length-drop, drop-append, drop-drop, Text,
  is_empty,
}
use rthas.Prelude.{trim}
use rthas.History.{cap, keep_cap, record_line}

-- A run of commands.
abbrev pub record_all : List Text → List Text → List Text
record_all [] h = h
record_all (line ∷ lines) h = record_all lines (record_line line h)

-- The commands that count: trimmed, and not blank.
abbrev pub commands : List Text → List Text
commands [] = []
commands (line ∷ lines) =
    if is_empty (trim line) then commands lines else trim line ∷ commands lines

abbrev pub newest : List Text → List Text
newest all = drop (length all - cap) all

keep_cap-drop : (h : List Text) → keep_cap h ≡ drop (length h - cap) h
keep_cap-drop h = elim (Bool-cases (ltb cap (length h))) [
  | inl over ↦ rw over
  | inr fits ↦ let none_over : length h - cap ≡ 0 = ground arith in rw (fits, none_over)
]

keep_cap-newest :
    (all : List Text) (x : Text) → keep_cap (newest all ++ x ∷ []) ≡ newest (all ++ x ∷ [])
keep_cap-newest all x =
    let d = length all - cap in
    let same : newest all ++ x ∷ [] ≡ drop d (all ++ x ∷ []) =
      sym (drop-append d all (x ∷ []) (omega arith)) in
    let size : length (all ++ x ∷ []) ≡ length all + 1 = length-append all (x ∷ []) in
    let left = length-drop d (all ++ x ∷ []) in
    let e = length (drop d (all ++ x ∷ [])) - cap in
    let count : d + e ≡ length (all ++ x ∷ []) - cap = rw (left, size) (omega arith) in
    ap keep_cap same
    ∙ keep_cap-drop (drop d (all ++ x ∷ []))
    ∙ drop-drop e d (all ++ x ∷ [])
    ∙ ap (λ n. drop n (all ++ x ∷ [])) count

record_all-newest :
    (lines all : List Text) → record_all lines (newest all) ≡ newest (all ++ commands lines)
unfolding record_line
record_all-newest [] all = ap newest (sym (append-nil all))
record_all-newest (line ∷ lines) all = elim (Bool-cases (is_empty (trim line))) [
  | inl blank ↦ rw blank (record_all-newest lines all)
  | inr there ↦
      rw (there, keep_cap-newest all (trim line))
        (record_all-newest lines (all ++ trim line ∷ [])
          ∙ ap newest (append_assoc all (trim line ∷ []) (commands lines)))
]

-- After any run of recorded lines on an empty history it holds the newest 500 commands, or all where
-- there are fewer, in order: those lines that are not blank, trimmed.
pub record_all-commands :
    (lines : List Text)
    → record_all lines [] ≡ drop (length (commands lines) - cap) (commands lines)
record_all-commands lines = record_all-newest lines []
