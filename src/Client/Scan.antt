-- ===== src/Client/Scan.antt =====
-- `file_contains` and `contains` of rthas-cli/src/main.rs. What `File::open` and the calls of `read`
-- answer is an input: the bytes that one call reads, or nothing where it fails; at the end of the
-- list the file ends.
pub mod Found
use rthas.Prelude.{
  ℕ, zero, suc, ◌-◌, Bool, true, false, Option, none, some, List, [], ◌∷◌, ◌++◌, ◌==◌,
  if◌then◌else◌, length, drop, starts_with,
}

-- `rest.iter().position(|&b| b == first)`.
unfoldable pub position : ℕ → List ℕ → Option ℕ
position first [] = none
position first (b ∷ rest) =
    if b == first
    then some 0
    else elim (position first rest) [ none ↦ none | some i ↦ some (suc i) ]

-- The loop of `contains`, one round for each byte at most.
unfoldable pub contains_fuel : ℕ → ℕ → List ℕ → List ℕ → Bool
unfolding position starts_with
contains_fuel zero first needle rest = false
contains_fuel (suc fuel) first needle rest = elim (position first rest) [
  | none ↦ false
  | some i ↦
      let later = contains_fuel fuel first needle (drop (suc i) rest) in
      if starts_with (drop i rest) needle then true else later
]

unfoldable pub contains : List ℕ → List ℕ → Bool
unfolding contains_fuel
contains haystack [] = true
contains haystack (first ∷ needle) =
    contains_fuel (suc (length haystack)) first (first ∷ needle) haystack

-- The last `overlap` bytes.
abbrev pub carry_of : ℕ → List ℕ → List ℕ
carry_of overlap haystack = drop (length haystack - overlap) haystack

-- The loop of `file_contains`; nothing where a `read` fails.
unfoldable pub scan : List ℕ → ℕ → List ℕ → List (Option (List ℕ)) → Option Bool
unfolding contains
scan needle overlap carry [] = some false
scan needle overlap carry (none ∷ reads) = none
scan needle overlap carry (some [] ∷ reads) = some false
scan needle overlap carry (some (b ∷ bytes) ∷ reads) =
    let haystack = carry ++ b ∷ bytes in
    let later = scan needle overlap (carry_of overlap haystack) reads in
    if contains haystack needle then some true else later

-- The reads are nothing where the file cannot be opened.
unfoldable pub file_contains : Option (List (Option (List ℕ))) → List ℕ → Option Bool
unfolding scan
file_contains none needle = none
file_contains (some reads) needle = scan needle (length needle - 1) [] reads
