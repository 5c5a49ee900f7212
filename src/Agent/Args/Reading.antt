-- ===== src/Agent/Args/Reading.antt =====
-- Command lines as `Args` of rthas/src/agent.rs reads them.
use rthas.Prelude.{
  ◌≡◌, refl, ap, subst, ◌∙◌, inl, inr, false, Option, none, some, List, [], ◌∷◌, ◌++◌, append-nil,
  append_assoc, arith, if◌then◌else◌, Bool-cases, All, All-append, Text, text_eq, is_whitespace,
  strip_prefix, starts_with, contains_char,
}
use rthas.Prelude.{split_whitespace, text_eq_self, text_eq→eq, strip_prefix-append, or_else}
use rthas.Jobs.Lines.{Word, split_whitespace-join}
use rthas.Agent.Args.{
  Args, word, flag_of, takes_next, dashes, valueless, insert, find_flag, split_once, peek_value,
  token_of, take_tokens, parse, get,
}
use rthas.Agent.Args.Line.{
  Item, plain, given, spaced, switch, bare, all_tokens, line_of, NoSpace, Stops, Written, words_of,
  last_value,
}

find_flag-insert :
    (k j v : Text) (m : List (Text × Text))
    → find_flag j (insert k v m) ≡ (if text_eq k j then some v else find_flag j m)
unfolding find_flag insert
find_flag-insert k j v [] = refl
find_flag-insert k j v ((i, w) ∷ m) = elim (Bool-cases (text_eq i k)) [
  | inl same ↦ rw (text_eq→eq i k same, text_eq_self k) (ground arith)
  | inr other ↦
      rw (other, find_flag-insert k j v m)
        (elim (Bool-cases (text_eq k j)) [
          | inl here ↦
              let e : k ≡ j = text_eq→eq k j here in
              let apart : text_eq i j ≡ false = subst (λ t. text_eq i t ≡ false) e other in
              rw (here, apart) refl
          | inr away ↦ rw away refl
        ])
]

split_once-at :
    (k v : Text) → contains_char b'=' k ≡ false → split_once b'=' (k ++ b'=' ∷ v) ≡ some (k, v)
unfolding split_once contains_char
split_once-at [] v h = refl
split_once-at (c ∷ k) v h = ground (arith, split_once-at k v)

split_once-none : (k : Text) → contains_char b'=' k ≡ false → split_once b'=' k ≡ none
unfolding split_once contains_char
split_once-none [] h = refl
split_once-none (c ∷ k) h = ground (arith, split_once-none k)

token_of-plain :
    (w : Text) (next : Option Text) → starts_with w dashes ≡ false → token_of w next ≡ word
unfolding token_of starts_with
token_of-plain w next h = ground arith

token_of-given :
    (k v : Text) (next : Option Text)
    → contains_char b'=' k ≡ false
    → token_of (dashes ++ (k ++ b'=' ∷ v)) next ≡ flag_of k v
unfolding token_of
token_of-given k v next h =
    rw (token_of, strip_prefix-append dashes (k ++ b'=' ∷ v), split_once-at k v h)

token_of-switch :
    (k : Text) (next : Option Text)
    → contains_char b'=' k ≡ false
    → token_of (dashes ++ k) next ≡ (if valueless k then flag_of k [] else peek_value k next)
unfolding token_of
token_of-switch k next h = rw (token_of, strip_prefix-append dashes k, split_once-none k h)

pub take_tokens-word :
    (pos : List Text) (flags : List (Text × Text)) (tok : Text) (rest : List Text)
    → ((next : Option Text) → token_of tok next ≡ word)
    → take_tokens pos flags (tok ∷ rest) ≡ take_tokens (pos ++ tok ∷ []) flags rest
unfolding take_tokens
take_tokens-word pos flags tok [] h = rw (take_tokens, h none)
take_tokens-word pos flags tok (next ∷ rest) h = rw (take_tokens, h (some next))

-- The token behind one, where there is one.
abbrev head : List Text → Option Text
head [] = none
head (w ∷ ws) = some w

take_tokens-flag :
    (pos : List Text) (flags : List (Text × Text)) (tok k v : Text) (rest : List Text)
    → token_of tok (head rest) ≡ flag_of k v
    → take_tokens pos flags (tok ∷ rest) ≡ take_tokens pos (insert k v flags) rest
unfolding take_tokens
take_tokens-flag pos flags tok k v [] h = rw (take_tokens, h)
take_tokens-flag pos flags tok k v (next ∷ rest) h = rw (take_tokens, h)

take_tokens-next :
    (pos : List Text) (flags : List (Text × Text)) (tok k v : Text) (rest : List Text)
    → token_of tok (some v) ≡ takes_next k
    → take_tokens pos flags (tok ∷ v ∷ rest) ≡ take_tokens pos (insert k v flags) rest
unfolding take_tokens
take_tokens-next pos flags tok k v rest h = rw (take_tokens, h)

abbrev assign : List Item → List (Text × Text) → List (Text × Text)
assign [] flags = flags
assign (plain w ∷ items) flags = assign items flags
assign (given k v ∷ items) flags = assign items (insert k v flags)
assign (spaced k v ∷ items) flags = assign items (insert k v flags)
assign (switch k ∷ items) flags = assign items (insert k [] flags)
assign (bare k ∷ items) flags = assign items (insert k [] flags)

peek_value-Stops :
    (k : Text) (items : List Item)
    → Stops items
    → peek_value k (head (all_tokens items)) ≡ flag_of k []
unfolding peek_value starts_with strip_prefix
peek_value-Stops k [] h = refl
peek_value-Stops k (plain w ∷ items) h = elim h [ ]
peek_value-Stops k (given j v ∷ items) h = refl
peek_value-Stops k (spaced j v ∷ items) h = refl
peek_value-Stops k (switch j ∷ items) h = refl
peek_value-Stops k (bare j ∷ items) h = refl

take_tokens-items :
    (pos : List Text) (flags : List (Text × Text)) (items : List Item)
    → Written items
    → take_tokens pos flags (all_tokens items)
      ≡ record { pos = pos ++ words_of items; flags = assign items flags }
unfolding peek_value
take_tokens-items pos flags [] h = rw (append-nil pos) (unfold take_tokens in refl)
take_tokens-items pos flags (plain w ∷ items) ((letters, no_dash), h) =
    take_tokens-word pos flags w (all_tokens items) (λ next. token_of-plain w next no_dash)
    ∙ take_tokens-items (pos ++ w ∷ []) flags items h
    ∙ rw (append_assoc pos (w ∷ []) (words_of items)) refl
take_tokens-items pos flags (given k v ∷ items) ((a, b, c), h) =
    take_tokens-flag pos flags (dashes ++ (k ++ b'=' ∷ v)) k v (all_tokens items)
      (token_of-given k v (head (all_tokens items)) b)
    ∙ take_tokens-items pos (insert k v flags) items h
take_tokens-items pos flags (spaced k v ∷ items) (((a, b, c), (letters, no_dash)), h) =
    take_tokens-next pos flags (dashes ++ k) k v (all_tokens items)
      (token_of-switch k (some v) b ∙ rw (c, peek_value, no_dash) refl)
    ∙ take_tokens-items pos (insert k v flags) items h
take_tokens-items pos flags (switch k ∷ items) ((a, b, c), h) =
    take_tokens-flag pos flags (dashes ++ k) k [] (all_tokens items)
      (token_of-switch k (head (all_tokens items)) b ∙ rw c refl)
    ∙ take_tokens-items pos (insert k [] flags) items h
take_tokens-items pos flags (bare k ∷ items) (((a, b, c), stops), h) =
    take_tokens-flag pos flags (dashes ++ k) k [] (all_tokens items)
      (token_of-switch k (head (all_tokens items)) b ∙ rw c (peek_value-Stops k items stops))
    ∙ take_tokens-items pos (insert k [] flags) items h

find_flag-assign :
    (key : Text) (items : List Item) (flags : List (Text × Text))
    → find_flag key (assign items flags) ≡ or_else (last_value key items) (find_flag key flags)
find_flag-assign key [] flags = refl
find_flag-assign key (plain w ∷ items) flags = find_flag-assign key items flags ∙ ground arith
find_flag-assign key (given k v ∷ items) flags =
    find_flag-assign key items (insert k v flags) ∙ ground (arith, find_flag-insert k key v flags)
find_flag-assign key (spaced k v ∷ items) flags =
    find_flag-assign key items (insert k v flags) ∙ ground (arith, find_flag-insert k key v flags)
find_flag-assign key (switch k ∷ items) flags =
    find_flag-assign key items (insert k [] flags) ∙ ground (arith, find_flag-insert k key [] flags)
find_flag-assign key (bare k ∷ items) flags =
    find_flag-assign key items (insert k [] flags) ∙ ground (arith, find_flag-insert k key [] flags)

dashes-Word : (k : Text) → NoSpace k → Word (dashes ++ k)
unfolding is_whitespace
dashes-Word k h = (refl, (refl, (refl, h)))

all_tokens-Word : (items : List Item) → Written items → All Word (all_tokens items)
unfolding is_whitespace
all_tokens-Word [] h = tt
all_tokens-Word (plain w ∷ items) ((letters, no_dash), h) = (letters, all_tokens-Word items h)
all_tokens-Word (given k v ∷ items) ((a, b, c), h) = (
  dashes-Word (k ++ b'=' ∷ v) (All-append (λ c. is_whitespace c ≡ false) k (b'=' ∷ v) a (refl, c)),
  all_tokens-Word items h,
)
all_tokens-Word (spaced k v ∷ items) (((a, b, c), (letters, no_dash)), h) =
    (dashes-Word k a, (letters, all_tokens-Word items h))
all_tokens-Word (switch k ∷ items) ((a, b, c), h) = (dashes-Word k a, all_tokens-Word items h)
all_tokens-Word (bare k ∷ items) (((a, b, c), stops), h) =
    (dashes-Word k a, all_tokens-Word items h)

-- A line of words, `--key=value`, `--key value`, switches that take no value and flags whose value
-- is left out, in any order and with a space between each two tokens, is read as its words in order,
-- and every key has the value that the line gives to it last, or none. No word and no value after a
-- space begins with `--`, no key holds `=`, nothing holds white space, a key with a value after a
-- space is not one of the switches, and no word stands behind a flag whose value is left out.
pub parse-line_of :
    (items : List Item) (key : Text)
    → Written items
    → ((parse (line_of items)).pos ≡ words_of items)
      × (get (parse (line_of items)) key ≡ last_value key items)
unfolding parse get
parse-line_of items key h =
    let whole : take_tokens [] [] (split_whitespace (line_of items))
        ≡ record { pos = words_of items; flags = assign items [] } =
      rw (split_whitespace-join (all_tokens items) (all_tokens-Word items h))
        (take_tokens-items [] [] items h) in
    (
      ap (λ (a : Args). a.pos) whole,
      ap (λ (a : Args). find_flag key a.flags) whole
          ∙ find_flag-assign key items []
          ∙ or_else_none (last_value key items),
    )
  where
    or_else_none : (o : Option Text) → or_else o (find_flag key []) ≡ o
    or_else_none none = unfold find_flag in refl
    or_else_none (some v) = refl
