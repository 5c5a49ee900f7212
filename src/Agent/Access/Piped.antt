-- ===== src/Agent/Access/Piped.antt =====
-- The verb that rthas/src/agent.rs runs, against the first word of the line.
use rthas.Prelude.{
  ◌≡◌, refl, sym, ap, subst, ◌∙◌, ◌⊎◌, inl, inr, true, false, false≢true, Option, none, some, List,
  [], ◌∷◌, ◌++◌, map, append-nil, append_assoc, Bool-cases, get_elem?, Text, is_empty,
  is_whitespace, split, contains_char,
}
use rthas.Prelude.{split_whitespace, trim}
use rthas.Pipe.{is_pipe_verb, extend_last, take_parts, split_parts, split_pipeline}
use rthas.Agent.Args.Reading.{take_tokens-word}
use rthas.Agent.Args.{
  Token, word, flag_of, takes_next, token_of, take_tokens, insert, parse, or_empty,
}
use rthas.Agent.Access.Verbs.{
  letters, lead, head_word, uncut, head_word-split, lead-uncut, lead-trim, split_whitespace-lead,
}

-- Nothing, or what begins with a bar.
abbrev pub Tail : Text → Type 0
Tail t = (t ≡ []) ⊎ ((u : Text) × (t ≡ b'|' ∷ u))

letters-bar : (x u : Text) → (t : Text) × Tail t × (letters (x ++ b'|' ∷ u) ≡ letters x ++ t)
unfolding is_whitespace
letters-bar [] u = (b'|' ∷ letters u, inr (letters u, refl), refl)
letters-bar (c ∷ x) u = elim (Bool-cases (is_whitespace c)) [
  | inl gap ↦ ([], inl refl, rw gap refl)
  | inr more ↦ let (t, tail, e) = letters-bar x u in (t, tail, rw more (ap (◌∷◌ c) e))
]

lead-bar : (x u : Text) → (t : Text) × Tail t × (lead (x ++ b'|' ∷ u) ≡ lead x ++ t)
unfolding is_whitespace
lead-bar [] u = (b'|' ∷ letters u, inr (letters u, refl), refl)
lead-bar (c ∷ x) u = elim (Bool-cases (is_whitespace c)) [
  | inl gap ↦ let (t, tail, e) = lead-bar x u in (t, tail, rw gap e)
  | inr more ↦ let (t, tail, e) = letters-bar x u in (t, tail, rw more (ap (◌∷◌ c) e))
]

take_parts-Tail :
    (cmd : Text) (pipes parts : List Text)
    → (t : Text) × Tail t × ((take_parts cmd pipes parts).0 ≡ cmd ++ t)
unfolding take_parts
take_parts-Tail cmd pipes [] = ([], inl refl, sym (append-nil cmd))
take_parts-Tail cmd [] (part ∷ parts) = elim (Bool-cases (is_pipe_verb part)) [
  | inl stage ↦ let (t, tail, e) = take_parts-Tail cmd (part ∷ []) parts in (t, tail, rw stage e)
  | inr plain ↦
      let (t, tail, e) = take_parts-Tail (cmd ++ b'|' ∷ part) [] parts in
      (b'|' ∷ (part ++ t), inr (part ++ t, refl), rw plain (e ∙ append_assoc cmd (b'|' ∷ part) t))
]
take_parts-Tail cmd (p ∷ ps) (part ∷ parts) = elim (Bool-cases (is_pipe_verb part)) [
  | inl stage ↦
      let (t, tail, e) = take_parts-Tail cmd ((p ∷ ps) ++ part ∷ []) parts in (t, tail, rw stage e)
  | inr plain ↦
      let (t, tail, e) = take_parts-Tail cmd (extend_last part (p ∷ ps)) parts in
      (t, tail, rw plain e)
]

lead-Tail : (x t : Text) → Tail t → (t' : Text) × Tail t' × (lead (x ++ t) ≡ lead x ++ t')
lead-Tail x t (inl none_there) =
    ([], inl refl, rw none_there (rw (append-nil x, append-nil (lead x)) refl))
lead-Tail x t (inr (u, e)) =
    let (t', tail, e') = lead-bar x u in (t', tail, ap (λ s. lead (x ++ s)) e ∙ e')

split_parts-lead :
    (line first : Text) (parts : List Text)
    → lead first ≡ lead line
    → (t : Text) × Tail t × (lead (split_parts line (first ∷ parts)).0 ≡ lead line ++ t)
split_parts-lead line first [] h = ([], inl refl, lead-trim line ∙ sym (append-nil (lead line)))
split_parts-lead line first (part ∷ parts) h =
    let (t, tail, e) = take_parts-Tail first [] (part ∷ parts) in
    let (t', tail', e') = lead-Tail first t tail in
    (t', tail', ap lead e ∙ e' ∙ ap (λ s. s ++ t') h)

-- The first word of the command in a line is the first word of the line, where that has no bar, or
-- that word with what begins with a bar.
pub split_pipeline-lead :
    (line : Text)
    → contains_char b'|' (lead line) ≡ false
    → (t : Text) × Tail t × (lead (split_pipeline line).0 ≡ lead line ++ t)
unfolding split_pipeline
split_pipeline-lead line h = at (split b'|' line) (head_word-split line)
  where
    at :
        (pieces : List Text)
        → head_word pieces ≡ uncut line
        → (t : Text) × Tail t × (lead (split_parts line (map trim pieces)).0 ≡ lead line ++ t)
    at [] e = ([], inl refl, lead-trim line ∙ sym (append-nil (lead line)))
    at (p ∷ ps) e =
        split_parts-lead line (trim p) (map trim ps) (lead-trim p ∙ ap lead e ∙ lead-uncut line h)

-- The words that are there stay in front.
take_tokens-front :
    (w : Text) (pos : List Text) (flags : List (Text × Text)) (toks : List Text)
    → (more : List Text) × ((take_tokens (w ∷ pos) flags toks).pos ≡ w ∷ more)
unfolding take_tokens
take_tokens-front w pos flags [] = (pos, refl)
take_tokens-front w pos flags (tok ∷ []) = last (token_of tok none) refl
  where
    last :
        (t : Token)
        → token_of tok none ≡ t
        → (more : List Text) × ((take_tokens (w ∷ pos) flags (tok ∷ [])).pos ≡ w ∷ more)
    last word e = (pos ++ tok ∷ [], rw (take_tokens, e) refl)
    last (flag_of k v) e = (pos, rw (take_tokens, e) refl)
    last (takes_next k) e = (pos, rw (take_tokens, e) refl)
take_tokens-front w pos flags (tok ∷ next ∷ rest) =
    then_rest (token_of tok (some next)) refl
      (take_tokens-front w (pos ++ tok ∷ []) flags (next ∷ rest))
      (λ k v. take_tokens-front w pos (insert k v flags) (next ∷ rest))
      (λ k. take_tokens-front w pos (insert k next flags) rest)
  where
    Front : List Text → List (Text × Text) → List Text → Type 0
    Front pos flags toks = (more : List Text) × ((take_tokens (w ∷ pos) flags toks).pos ≡ w ∷ more)

    then_rest :
        (t : Token)
        → token_of tok (some next) ≡ t
        → Front (pos ++ tok ∷ []) flags (next ∷ rest)
        → ((k v : Text) → Front pos (insert k v flags) (next ∷ rest))
        → ((k : Text) → Front pos (insert k next flags) rest)
        → Front pos flags (tok ∷ next ∷ rest)
    then_rest word e (more, f) g h = (more, rw (take_tokens, e) f)
    then_rest (flag_of k v) e f g h = let (more, g') = g k v in (more, rw (take_tokens, e) g')
    then_rest (takes_next k) e f g h = let (more, h') = h k in (more, rw (take_tokens, e) h')

-- The verb that is run.
abbrev pub verb_of : Text → Text
verb_of line = or_empty (get_elem? (parse line).pos 0)

pub verb_of-lead :
    (line : Text)
    → ((next : Option Text) → token_of (lead line) next ≡ word)
    → is_empty (lead line) ≡ false
    → verb_of line ≡ lead line
unfolding parse
verb_of-lead line h some_there = at (split_whitespace line) (split_whitespace-lead line)
  where
    at :
        (ws : List Text)
        → head_word ws ≡ lead line
        → or_empty (get_elem? (take_tokens [] [] ws).pos 0) ≡ lead line
    at [] e =
        let no : false ≡ true = sym (subst (λ t. is_empty t ≡ false) (sym e) some_there) in
        absurd (false≢true no)
    at (w ∷ ws) e =
        let first = take_tokens-word [] [] w ws (λ next. ap (λ t. token_of t next) e ∙ h next) in
        let (more, front) = take_tokens-front w [] [] ws in rw (first, front) e
