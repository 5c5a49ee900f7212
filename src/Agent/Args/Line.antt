-- ===== src/Agent/Args/Line.antt =====
-- Command lines as they are written, for `Args` of rthas/src/agent.rs.
use rthas.Prelude.{
  ◌≡◌, Bool, true, false, Option, none, some, List, [], ◌∷◌, ◌++◌, if◌then◌else◌, All, Text,
  text_eq, is_whitespace, starts_with, contains_char,
}
use rthas.Prelude.{join, or_else}
use rthas.Jobs.Lines.{Word}
use rthas.Agent.Args.{dashes, valueless}

-- What can stand on a command line: a word, `--key=value`, `--key value`, a flag that takes no
-- value, and a flag whose value is left out.
pub data Item : Type 0 where
  plain : Text → Item
  given : Text → Text → Item
  spaced : Text → Text → Item
  switch : Text → Item
  bare : Text → Item

abbrev pub tokens_of : Item → List Text
tokens_of (plain w) = w ∷ []
tokens_of (given k v) = (dashes ++ (k ++ b'=' ∷ v)) ∷ []
tokens_of (spaced k v) = (dashes ++ k) ∷ v ∷ []
tokens_of (switch k) = (dashes ++ k) ∷ []
tokens_of (bare k) = (dashes ++ k) ∷ []

abbrev pub all_tokens : List Item → List Text
all_tokens [] = []
all_tokens (i ∷ items) = tokens_of i ++ all_tokens items

abbrev pub line_of : List Item → Text
line_of items = join (b' ' ∷ []) (all_tokens items)

abbrev pub NoSpace : Text → Type 0
NoSpace s = All (λ c. is_whitespace c ≡ false) s

abbrev pub Key : Bool → Text → Type 0
Key takes_none k = NoSpace k × (contains_char b'=' k ≡ false) × (valueless k ≡ takes_none)

-- A word that is no flag.
abbrev pub NoFlag : Text → Type 0
NoFlag w = Word w × (starts_with w dashes ≡ false)

-- No word that the flag in front would take for its value.
abbrev pub Stops : List Item → Type 0
Stops (plain w ∷ items) = ⊥
Stops items = Unit

abbrev pub Written : List Item → Type 0
Written [] = Unit
Written (plain w ∷ items) = NoFlag w × Written items
Written (given k v ∷ items) =
    (NoSpace k × (contains_char b'=' k ≡ false) × NoSpace v) × Written items
Written (spaced k v ∷ items) = (Key false k × NoFlag v) × Written items
Written (switch k ∷ items) = Key true k × Written items
Written (bare k ∷ items) = (Key false k × Stops items) × Written items

abbrev pub words_of : List Item → List Text
words_of [] = []
words_of (plain w ∷ items) = w ∷ words_of items
words_of (other ∷ items) = words_of items

-- The value that an item gives to a key.
abbrev pub value_in : Text → Item → Option Text
value_in key (plain w) = none
value_in key (given k v) = if text_eq k key then some v else none
value_in key (spaced k v) = if text_eq k key then some v else none
value_in key (switch k) = if text_eq k key then some [] else none
value_in key (bare k) = if text_eq k key then some [] else none

-- The last one counts.
abbrev pub last_value : Text → List Item → Option Text
last_value key [] = none
last_value key (i ∷ items) = or_else (last_value key items) (value_in key i)
