-- ===== src/Agent/Args.antt =====
-- `Args` of rthas/src/agent.rs: the words of a command line and its flags. The `HashMap` of flags is
-- an association list.
pub mod Line
pub mod Reading
use rthas.Prelude.{
  ℕ, suc, Bool, Option, none, some, List, [], ◌∷◌, ◌++◌, ◌==◌, any, get_elem?, if◌then◌else◌, Text,
  codes, text_eq, strip_prefix, starts_with, is_some,
}
use rthas.Prelude.{split_whitespace, parse_unsigned}

pub record Args : Type 0 where
  pub pos : List Text
  pub flags : List (Text × Text)

abbrev pub valueless_flags : List Text
valueless_flags =
    codes "native"
    ∷ codes "list"
    ∷ codes "clear"
    ∷ codes "full"
    ∷ codes "all"
    ∷ codes "stack"
    ∷ codes "d"
    ∷ codes "decode"
    ∷ codes "c"
    ∷ codes "error"
    ∷ codes "success"
    ∷ codes "exception"
    ∷ []

unfoldable pub valueless : Text → Bool
valueless name = any (text_eq name) valueless_flags

-- `flags.insert(k, v)`.
unfoldable pub insert : Text → Text → List (Text × Text) → List (Text × Text)
insert k v [] = (k, v) ∷ []
insert k v ((j, w) ∷ m) = if text_eq j k then (k, v) ∷ m else (j, w) ∷ insert k v m

unfoldable pub find_flag : Text → List (Text × Text) → Option Text
find_flag k [] = none
find_flag k ((j, v) ∷ m) = if text_eq j k then some v else find_flag k m

abbrev pub cons_key {ℓ} : {A : Type ℓ} → ℕ → Option (Text × A) → Option (Text × A)
cons_key c none = none
cons_key c (some (k, v)) = some (c ∷ k, v)

-- `rest.split_once('=')`.
unfoldable pub split_once : ℕ → Text → Option (Text × Text)
split_once sep [] = none
split_once sep (c ∷ s) = if c == sep then some ([], s) else cons_key c (split_once sep s)

-- What a token is, in view of the one behind it: a word, a flag with its value, or a flag whose
-- value is the next token.
pub data Token : Type 0 where
  word : Token
  flag_of : Text → Text → Token
  takes_next : Text → Token

abbrev pub dashes : Text
dashes = codes "--"

unfoldable pub peek_value : Text → Option Text → Token
peek_value name none = flag_of name []
peek_value name (some next) = if starts_with next dashes then flag_of name [] else takes_next name

unfoldable pub token_of : Text → Option Text → Token
unfolding peek_value split_once valueless
token_of tok next = elim (strip_prefix dashes tok) [
  | none ↦ word
  | some rest ↦ elim (split_once b'=' rest) [
    | some (k, v) ↦ flag_of k v
    | none ↦ if valueless rest then flag_of rest [] else peek_value rest next
  ]
]

unfoldable pub take_tokens : List Text → List (Text × Text) → List Text → Args
unfolding token_of insert
take_tokens pos flags [] = record { pos = pos; flags = flags }
take_tokens pos flags (tok ∷ []) = elim (token_of tok none) [
  | word ↦ record { pos = pos ++ tok ∷ []; flags = flags }
  | flag_of k v ↦ record { pos = pos; flags = insert k v flags }
  | takes_next k ↦ record { pos = pos; flags = insert k [] flags }
]
take_tokens pos flags (tok ∷ next ∷ rest) = elim (token_of tok (some next)) [
  | word ↦ take_tokens (pos ++ tok ∷ []) flags (next ∷ rest)
  | flag_of k v ↦ take_tokens pos (insert k v flags) (next ∷ rest)
  | takes_next k ↦ take_tokens pos (insert k next flags) rest
]

unfoldable pub parse : Text → Args
unfolding take_tokens
parse line = take_tokens [] [] (split_whitespace line)

unfoldable pub get : Args → Text → Option Text
unfolding find_flag
get args key = find_flag key args.flags

unfoldable pub flag : Args → Text → Bool
unfolding find_flag
flag args key = is_some (find_flag key args.flags)

-- For an unsigned type with values below `bound`.
unfoldable pub num : ℕ → Args → Text → ℕ → ℕ
unfolding get parse_unsigned
num bound args key default = elim (get args key) [
  | none ↦ default
  | some v ↦ elim (parse_unsigned bound v) [ none ↦ default | some n ↦ n ]
]

abbrev pub or_empty : Option Text → Text
or_empty none = []
or_empty (some s) = s

unfoldable pub pattern : Args → Text
pattern args = or_empty (get_elem? args.pos 1)
