-- ===== src/Pipe/Grep/Parse.antt =====
-- `Grep::parse` of rthas/src/pipe.rs.
use rthas.Prelude.{
  ℕ, ◌≡◌, refl, subst, ◌⊎◌, inl, inr, Bool, true, false, Option, none, some, List, [], ◌∷◌, ◌++◌,
  ◌==◌, if◌then◌else◌, Bool-cases, u64_mod, Text, codes, text_eq, is_empty, strip_prefix,
}
use rthas.Prelude.{parse_unsigned, split_whitespace}
use rthas.Pipe.Grep.{Grep}
use rthas.Pipe.Grep.Shown.{IsNew}

-- The options read so far, and the first word that is none.
pub record Opts : Type 0 where
  pub ignore_case : Bool
  pub invert : Bool
  pub line_number : Bool
  pub count_only : Bool
  pub max_count : ℕ
  pub before : ℕ
  pub after : ℕ
  pub pattern : Text

-- An option that has a value: `m`, `A`, `B`, `C`.
pub data Valued : Type 0 where
  max_value : Valued
  after_value : Valued
  before_value : Valued
  context_value : Valued

abbrev pub set : Valued → ℕ → Opts → Opts
set max_value n o = record o { max_count = n }
set after_value n o = record o { after = n }
set before_value n o = record o { before = n }
set context_value n o = record o { before = n; after = n }

-- What a word makes of the options: they change; the next word is a value; `--` was read; an error.
pub data Reading : Type 0 where
  go_on : Opts → Reading
  wants : Valued → Opts → Reading
  dashes : Reading
  failed : Text → Reading

-- `s.parse().ok().unwrap_or(0)` at `usize`.
unfoldable pub value : Text → ℕ
unfolding parse_unsigned
value s = elim (parse_unsigned u64_mod s) [ none ↦ 0 | some n ↦ n ]

-- A word that starts with `--`, by what follows.
unfoldable pub read_long : Text → Opts → Reading
read_long rest o =
    if text_eq rest (codes "ignore-case")
    then go_on (record o { ignore_case = true })
    else if text_eq rest (codes "invert-match")
    then go_on (record o { invert = true })
    else if text_eq rest (codes "line-number")
    then go_on (record o { line_number = true })
    else if text_eq rest (codes "count")
    then go_on (record o { count_only = true })
    else if text_eq rest (codes "max-count")
    then wants max_value o
    else if text_eq rest (codes "after-context")
    then wants after_value o
    else if text_eq rest (codes "before-context")
    then wants before_value o
    else if text_eq rest (codes "context")
    then wants context_value o
    else if text_eq rest (codes "regex")
    then failed (codes "grep --regex is not supported (substring only)")
    else failed (codes "grep: unknown option --" ++ rest)

-- A value: what is left of the word, or else the next word.
abbrev pub glued_or_next : Valued → Text → Opts → Reading
glued_or_next v [] o = wants v o
glued_or_next v (c ∷ glued) o = go_on (set v (value (c ∷ glued)) o)

-- A letter without a value.
abbrev pub flag : ℕ → Opts → Option Opts
flag c o =
    if c == b'i'
    then some (record o { ignore_case = true })
    else if c == b'v'
    then some (record o { invert = true })
    else if c == b'n'
    then some (record o { line_number = true })
    else if c == b'c'
    then some (record o { count_only = true })
    else none

-- Any other letter, with what follows it in the word.
abbrev pub valued : ℕ → Text → Opts → Reading
valued c cs o =
    if c == b'm'
    then glued_or_next max_value cs o
    else if c == b'A'
    then glued_or_next after_value cs o
    else if c == b'B'
    then glued_or_next before_value cs o
    else if c == b'C'
    then glued_or_next context_value cs o
    else if c == b'e'
    then failed (codes "grep -e regex is not supported (substring only)")
    else failed (codes "grep: unknown option -" ++ (c ∷ []))

-- A word that starts with one `-`: its letters.
unfoldable pub read_short : Text → Opts → Reading
read_short [] o = go_on o
read_short (c ∷ cs) o = elim (flag c o) [ some o' ↦ read_short cs o' | none ↦ valued c cs o ]

unfoldable pub read_word : Text → Opts → Reading
unfolding read_long read_short strip_prefix
read_word t o = if text_eq t (codes "--") then dashes else elim (strip_prefix (codes "--") t) [
  | some rest ↦ read_long rest o
  | none ↦ elim (strip_prefix (codes "-") t) [
    | some rest ↦ read_short rest o
    | none ↦ go_on (if is_empty o.pattern then record o { pattern = t } else o)
  ]
]

-- Behind `--` one word more is looked at.
abbrev pub last_word : Opts → List Text → Opts
last_word o [] = o
last_word o (t ∷ ts) = if is_empty o.pattern then record o { pattern = t } else o

-- The loop over the words; `pending` is the option that the next word is the value of.
unfoldable pub read_words : Option Valued → Opts → List Text → Text ⊎ Opts
unfolding read_word value
read_words none o [] = inr o
read_words (some v) o [] = inr (set v 0 o)
read_words (some v) o (t ∷ ts) = read_words none (set v (value t) o) ts
read_words none o (t ∷ ts) = elim (read_word t o) [
  | go_on o' ↦ read_words none o' ts
  | wants v o' ↦ read_words (some v) o' ts
  | dashes ↦ inr (last_word o ts)
  | failed e ↦ inl e
]

abbrev pub no_opts : Opts
no_opts = record {
  ignore_case = false;
  invert = false;
  line_number = false;
  count_only = false;
  max_count = 0;
  before = 0;
  after = 0;
  pattern = [];
}

-- `tokens.first() == Some("grep")`, and then it goes.
abbrev pub without_verb : Text → List Text → List Text
without_verb verb [] = []
without_verb verb (t ∷ ts) = if text_eq t verb then ts else t ∷ ts

abbrev pub fresh : Opts → Grep
fresh o = record {
  pattern = o.pattern;
  ignore_case = o.ignore_case;
  invert = o.invert;
  line_number = o.line_number;
  count_only = o.count_only;
  max_count = o.max_count;
  before = o.before;
  after = o.after;
  line_no = 0;
  hits = 0;
  pending_after = 0;
  before_buf = [];
}

abbrev pub checked : Text ⊎ Opts → Text ⊎ Grep
checked (inl e) = inl e
checked (inr o) = if is_empty o.pattern then inl (codes "grep needs a pattern") else inr (fresh o)

unfoldable pub parse : Text → Text ⊎ Grep
unfolding read_words split_whitespace
parse spec = checked (read_words none no_opts (without_verb (codes "grep") (split_whitespace spec)))

checked→IsNew :
    (r : Text ⊎ Opts) (g : Grep) → checked r ≡ inr g → (is_empty g.pattern ≡ false) × IsNew g
checked→IsNew (inl e) g h = cc
checked→IsNew (inr o) g h = elim (Bool-cases (is_empty o.pattern)) [
  | inl empty ↦
      let no : ◌≡◌ {A = Text ⊎ Grep} (inl (codes "grep needs a pattern")) (inr g) =
        (rw empty at h) in
      cc
  | inr there ↦
      let answer : ◌≡◌ {A = Text ⊎ Grep} (inr (fresh o)) (inr g) = (rw there at h) in
      let same : fresh o ≡ g = cc in
      subst (λ g'. (is_empty g'.pattern ≡ false) × IsNew g') same (there, (refl, refl, refl, refl))
]

-- A `grep` that `parse` answers has a pattern and has read nothing.
pub parse→IsNew :
    (spec : Text) (g : Grep) → parse spec ≡ inr g → (is_empty g.pattern ≡ false) × IsNew g
unfolding parse
parse→IsNew spec g h =
    checked→IsNew (read_words none no_opts (without_verb (codes "grep") (split_whitespace spec))) g
      h
