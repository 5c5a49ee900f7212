-- ===== src/Prelude/Strings.antt =====
-- More of Rust's `str`: trimming, words, joining, decimal numbers.
use Prim.Native.Nat.{ℕ, zero, suc, ◌+◌, ◌-◌, ◌*◌, ◌/◌, ◌%◌}
use mathlib.Core.Bool.{Bool, false, not, ◌&&◌}
use mathlib.Core.List.{List, [], ◌∷◌, ◌++◌}
use mathlib.Core.Option.{Option, none, some}
use rthas.Prelude.Tests.{◌==◌, leb, ltb, if◌then◌else◌}
use rthas.Prelude.Chars.{Text, is_empty, is_whitespace, cons_head}

-- `s.trim_start()`.
unfoldable pub trim_start : Text → Text
trim_start [] = []
trim_start (c ∷ s) = if is_whitespace c then trim_start s else c ∷ s

-- `s.trim_end_matches(p)` for a test on characters.
unfoldable pub trim_end_matches : (ℕ → Bool) → Text → Text
trim_end_matches p [] = []
trim_end_matches p (c ∷ s) =
    let rest = trim_end_matches p s in if is_empty rest && p c then [] else c ∷ rest

-- `s.trim()`.
unfoldable pub trim : Text → Text
unfolding trim_start trim_end_matches
trim s = trim_end_matches is_whitespace (trim_start s)

abbrev pub begins_word : Text → Bool
begins_word [] = false
begins_word (c ∷ s) = not (is_whitespace c)

-- `s.split_whitespace()`.
unfoldable pub split_whitespace : Text → List Text
unfolding is_whitespace
split_whitespace [] = []
split_whitespace (c ∷ s) =
    let rest = split_whitespace s in
    if is_whitespace c then rest else if begins_word s then cons_head c rest else (c ∷ []) ∷ rest

-- `parts.join(sep)`.
unfoldable pub join : Text → List Text → Text
join sep [] = []
join sep (p ∷ []) = p
join sep (p ∷ q ∷ ps) = p ++ (sep ++ join sep (q ∷ ps))

-- `s.to_ascii_lowercase()`.
unfoldable pub to_ascii_lowercase : Text → Text
to_ascii_lowercase [] = []
to_ascii_lowercase (c ∷ s) = (if leb b'A' c && leb c b'Z' then c + 32 else c) ∷ to_ascii_lowercase s

abbrev pub last_or {ℓ} : {A : Type ℓ} → A → List A → A
last_or d [] = d
last_or d (x ∷ xs) = last_or x xs

-- `s.parse::<uN>()` behind an optional `+`: digits only, with a check of the bound at each of them.
unfoldable pub parse_digits : ℕ → ℕ → Text → Option ℕ
parse_digits bound acc [] = some acc
parse_digits bound acc (c ∷ s) =
    let acc' = acc * 10 + (c - b'0') in
    let rest = parse_digits bound acc' s in
    if leb b'0' c && leb c b'9' && ltb acc' bound then rest else none

unfoldable pub parse_unsigned : ℕ → Text → Option ℕ
unfolding parse_digits
parse_unsigned bound [] = none
parse_unsigned bound (c ∷ s) =
    if c == b'+'
    then if is_empty s then none else parse_digits bound 0 s
    else parse_digits bound 0 (c ∷ s)

-- `n.to_string()`: the digits, with fuel for as many as there can be.
unfoldable pub digits : ℕ → ℕ → Text
digits zero n = []
digits (suc fuel) n =
    let rest = digits fuel (n / 10) in
    if ltb n 10 then (b'0' + n) ∷ [] else rest ++ (b'0' + n % 10) ∷ []

unfoldable pub to_text : ℕ → Text
unfolding digits
to_text n = digits (suc n) n
