-- ===== src/Client/Target.antt =====
-- The flags of rthas-cli/src/main.rs that the client reads itself. A path is its text.
pub mod Rotating
use rthas.Prelude.{
  ℕ, Bool, true, false, ◌||◌, Option, none, some, List, [], ◌∷◌, ◌++◌, if◌then◌else◌, u32_mod,
  starts_with, Text, codes, text_eq,
}
use rthas.Prelude.{parse_unsigned}
use rthas.Agent.Args.{split_once}

pub record Target : Type 0 where
  pub sock : Option Text
  pub pid : Option ℕ
  pub sock_dir : Option Text
  pub password : Option Text

abbrev pub no_target : Target
no_target = record { sock = none; pid = none; sock_dir = none; password = none }

unfoldable pub is_inline : Text → Bool
is_inline flag =
    starts_with flag (codes "--pid=")
    || starts_with flag (codes "--sock=")
    || starts_with flag (codes "--sock-dir=")
    || starts_with flag (codes "--password=")

unfoldable pub takes_value : Text → Bool
takes_value flag =
    text_eq flag (codes "--pid")
    || text_eq flag (codes "--sock")
    || text_eq flag (codes "--sock-dir")
    || text_eq flag (codes "--password")

unfoldable pub rotate_target_flags : List Text → List Text
unfolding is_inline takes_value
rotate_target_flags [] = []
rotate_target_flags (flag ∷ []) = flag ∷ []
rotate_target_flags (flag ∷ value ∷ rest) =
    if is_inline flag
    then (value ∷ rest) ++ flag ∷ []
    else if takes_value flag
    then rest ++ flag ∷ value ∷ []
    else flag ∷ value ∷ rest

pub data Field : Type 0 where
  sock : Field
  sock_dir : Field
  pid : Field
  password : Field

abbrev pub pid_of : Option Text → Option ℕ
pid_of none = none
pid_of (some v) = parse_unsigned u32_mod v

unfoldable pub set_field : Field → Option Text → Target → Target
unfolding parse_unsigned
set_field sock v t = record t { sock = v }
set_field sock_dir v t = record t { sock_dir = v }
set_field pid v t = record t { pid = pid_of v }
set_field password v t = record t { password = v }

-- The arms of the match: a flag whose value is the next argument, one with its value, or an argument
-- for the agent.
pub data Kind : Type 0 where
  next_for : Field → Kind
  value_for : Field → Option Text → Kind
  forwarded : Kind

abbrev pub behind_eq : Option (Text × Text) → Option Text
behind_eq none = none
behind_eq (some (k, v)) = some v

unfoldable pub kind_of : Text → Kind
unfolding split_once
kind_of arg =
    if text_eq arg (codes "--sock")
    then next_for sock
    else if text_eq arg (codes "--sock-dir")
    then next_for sock_dir
    else if text_eq arg (codes "--pid")
    then next_for pid
    else if text_eq arg (codes "--password")
    then next_for password
    else if starts_with arg (codes "--sock=")
    then value_for sock (behind_eq (split_once b'=' arg))
    else if starts_with arg (codes "--pid=")
    then value_for pid (behind_eq (split_once b'=' arg))
    else if starts_with arg (codes "--password=")
    then value_for password (behind_eq (split_once b'=' arg))
    else forwarded

unfoldable pub read_args : Target → List Text → List Text → Target × List Text
unfolding kind_of set_field
read_args t fwd [] = (t, fwd)
read_args t fwd (arg ∷ []) = elim (kind_of arg) [
  | next_for field ↦ (set_field field none t, fwd)
  | value_for field v ↦ (set_field field v t, fwd)
  | forwarded ↦ (t, fwd ++ arg ∷ [])
]
read_args t fwd (arg ∷ next ∷ rest) = elim (kind_of arg) [
  | next_for field ↦ read_args (set_field field (some next) t) fwd rest
  | value_for field v ↦ read_args (set_field field v t) fwd (next ∷ rest)
  | forwarded ↦ read_args t (fwd ++ arg ∷ []) (next ∷ rest)
]

unfoldable pub parse_target : List Text → Target × List Text
unfolding read_args
parse_target args = read_args no_target [] args
