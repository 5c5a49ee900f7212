-- ===== src/Glob.antt =====
-- `glob_match` of rthas/src/probe.rs, which rthas-ebpf/src/glob.rs repeats word for word.
pub mod Spec
pub mod Decides
use rthas.Prelude.{
  ℕ, zero, suc, ◌-◌, Bool, true, false, not, ◌||◌, Option, none, some, List, [], ◌∷◌, codes, Text,
  text_eq, is_empty, if◌then◌else◌, length, any, strip_prefix, after_first, contains, ends_with,
  split, contains_char,
}

-- What follows each of the places that `s.match_indices(first)` finds: the search goes on behind
-- the place found, `skip` characters on.
unfoldable pub starts : Text → ℕ → Text → List Text
starts first skip [] = []
starts first (suc k) (c ∷ s) = starts first k s
starts first zero (c ∷ s) = elim (strip_prefix first (c ∷ s)) [
  | some r ↦ r ∷ starts first (length first - 1) s
  | none ↦ starts first zero s
]

-- The loop over the middles: each is consumed at its leftmost place.
unfoldable pub consume : List Text → Text → Option Text
consume [] rest = some rest
consume ([] ∷ ms) rest = consume ms rest
consume ((c ∷ m) ∷ ms) rest = elim (after_first (c ∷ m) rest) [
  | some rest' ↦ consume ms rest'
  | none ↦ none
]

abbrev pub ends : Text → Option Text → Bool
ends last none = false
ends last (some rest) = is_empty last || ends_with rest last

-- The pieces behind the first: the middles, and the last one.
abbrev pub middles : Text → List Text → List Text
middles p [] = []
middles p (q ∷ qs) = p ∷ middles q qs

abbrev pub last_of : Text → List Text → Text
last_of p [] = p
last_of p (q ∷ qs) = last_of q qs

-- A pattern with a `*`, by its pieces.
unfoldable pub match_parts : List Text → Text → Bool
unfolding starts consume
match_parts [] s = true
match_parts (first ∷ []) s = true
match_parts (first ∷ p ∷ ps) s =
    any (λ rest. ends (last_of p ps) (consume (middles p ps) rest))
      (if is_empty first then s ∷ [] else starts first 0 s)

unfoldable pub glob_match : Text → Text → Bool
glob_match pattern s =
    if is_empty pattern || text_eq pattern (codes "*")
    then true
    else if not (contains_char b'*' pattern)
    then contains s pattern
    else match_parts (split b'*' pattern) s
