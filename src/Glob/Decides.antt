-- ===== src/Glob/Decides.antt =====
-- `glob_match` answers true exactly where the pieces of its pattern are spelled out.
use rthas.Prelude.{
  ℕ, zero, suc, ◌-◌, ◌≤◌, ◌≡◌, refl, sym, ap, subst, ◌∙◌, ◌≢◌, ◌↔◌, inl, inr, Bool, true, false,
  false≢true, some, List, [], ◌∷◌, ◌++◌, append-nil, arith, ◌==◌, if◌then◌else◌, Bool-cases,
  Option-cases, length, any, All, All-map, Text, codes, text_eq, is_empty, strip_prefix,
  after_first, contains, cons_head, split, contains_char,
}
use rthas.Prelude.{text_eq→eq, strip_prefix→append}
use rthas.Glob.{starts, consume, ends, middles, last_of, match_parts, glob_match}
use rthas.Glob.Spec.{
  Spelled, Suffix, Suffix-Spelled, after_first→append, after_first-Suffix, consume→Spelled,
  Spelled→consume,
}

-- Each start is what stands behind an occurrence.
starts-Suffix : (p : Text) (k : ℕ) (s : Text) → All (λ rest. Suffix (p ++ rest) s) (starts p k s)
unfolding starts
starts-Suffix p k [] = tt
starts-Suffix p (suc k) (c ∷ s) = All-map (one_more c s) (starts p k s) (starts-Suffix p k s)
  where
    one_more : (c : ℕ) (s rest : Text) → Suffix (p ++ rest) s → Suffix (p ++ rest) (c ∷ s)
    one_more c s rest (front, e) = (c ∷ front, ap (◌∷◌ c) e)
starts-Suffix p zero (c ∷ s) = elim (Option-cases (strip_prefix p (c ∷ s))) [
  | inl no_match ↦
      rw (no_match, starts) (All-map (one_more c s) (starts p zero s) (starts-Suffix p zero s))
  | inr (r, found) ↦
      rw (found, starts)
        (
          ([], strip_prefix→append p (c ∷ s) found),
          All-map (one_more c s) (starts p (length p - 1) s) (starts-Suffix p (length p - 1) s),
        )
]
  where
    one_more : (c : ℕ) (s rest : Text) → Suffix (p ++ rest) s → Suffix (p ++ rest) (c ∷ s)
    one_more c s rest (front, e) = (c ∷ front, ap (◌∷◌ c) e)

strip_prefix-nil : (a : ℕ) (p r : Text) → strip_prefix (a ∷ p) [] ≢ some r
unfolding strip_prefix
strip_prefix-nil a p r h = cc

-- The first start is behind the leftmost occurrence.
starts-after_first :
    (p s r : Text)
    → 1 ≤ length p
    → after_first p s ≡ some r
    → (more : List Text) × (starts p 0 s ≡ r ∷ more)
unfolding starts after_first
starts-after_first [] s r h e = absurd (omega arith)
starts-after_first (a ∷ p) [] r h e =
    let no : strip_prefix (a ∷ p) [] ≡ some r = e in absurd (strip_prefix-nil a p r no)
starts-after_first (a ∷ p) (c ∷ s) r h e = elim (Option-cases (strip_prefix (a ∷ p) (c ∷ s))) [
  | inl no_match ↦
      let later : after_first (a ∷ p) s ≡ some r = (rw no_match at e) in
      let (more, d) = starts-after_first (a ∷ p) s r h later in (more, rw (no_match, starts) d)
  | inr (r', found) ↦
      let hit : some r' ≡ some r = (rw found at e) in
      let same : r' ≡ r = cc in
      let less : suc (length p) - 1 ≡ length p = omega arith in
      (
        starts (a ∷ p) (length p) s,
        rw (found, starts, same) (ap (λ k. r ∷ starts (a ∷ p) k s) less),
      )
]

any-All :
    {Q : Type 0} (f : Text → Bool) (xs : List Text)
    → All (λ x. f x ≡ true → Q) xs
    → any f xs ≡ true
    → Q
any-All f [] h e = absurd (false≢true e)
any-All f (x ∷ xs) h e = elim (Bool-cases (f x)) [
  | inl hit ↦ h.0 hit
  | inr miss ↦ any-All f xs h.1 (rw miss at e)
]

spelled :
    (first p : Text) (ps : List Text) (s rest : Text)
    → Suffix (first ++ rest) s
    → ends (last_of p ps) (consume (middles p ps) rest) ≡ true
    → Spelled (first ∷ p ∷ ps) s
spelled first p ps s rest (gap, e) more = (gap, rest, e, consume→Spelled p ps rest more)

match_parts→Spelled :
    (first p : Text) (ps : List Text) (s : Text)
    → match_parts (first ∷ p ∷ ps) s ≡ true
    → Spelled (first ∷ p ∷ ps) s
unfolding match_parts
match_parts→Spelled [] p ps s h =
    any-All (λ x. ends (last_of p ps) (consume (middles p ps) x)) (s ∷ [])
      (spelled [] p ps s s ([], refl), tt) h
match_parts→Spelled (c ∷ first) p ps s h =
    any-All (λ x. ends (last_of p ps) (consume (middles p ps) x)) (starts (c ∷ first) 0 s)
      (All-map (spelled (c ∷ first) p ps s) (starts (c ∷ first) 0 s)
        (starts-Suffix (c ∷ first) 0 s))
      h

Spelled→match_parts :
    (first p : Text) (ps : List Text) (s : Text)
    → Spelled (first ∷ p ∷ ps) s
    → match_parts (first ∷ p ∷ ps) s ≡ true
unfolding match_parts
Spelled→match_parts [] p ps s (gap, rest, e, more) =
    rw (Spelled→consume p ps s (Suffix-Spelled p ps rest s (gap, e) more))
Spelled→match_parts (c ∷ first) p ps s (gap, rest, e, more) =
    let (r, found, x) = after_first-Suffix (c ∷ first) gap rest in
    let hit : after_first (c ∷ first) s ≡ some r = ap (after_first (c ∷ first)) e ∙ found in
    let (others, d) = starts-after_first (c ∷ first) s r (omega arith) hit in
    rw (d, Spelled→consume p ps r (Suffix-Spelled p ps rest r x more))

cons_head-Two :
    (c : ℕ) (parts : List Text) (first p : Text) (ps : List Text)
    → parts ≡ first ∷ p ∷ ps
    → cons_head c parts ≡ (c ∷ first) ∷ p ∷ ps
cons_head-Two c parts first p ps e = rw e

split-cons : (s : Text) → (first : Text) × (ps : List Text) × (split b'*' s ≡ first ∷ ps)
unfolding split
split-cons [] = ([], [], refl)
split-cons (c ∷ s) = elim (Bool-cases (c == b'*')) [
  | inl star ↦ ([], split b'*' s, rw star)
  | inr other ↦ let (first, ps, e) = split-cons s in (c ∷ first, ps, rw (other, e))
]

-- The pieces of a pattern with a `*` are two or more.
split-star :
    (pattern : Text)
    → contains_char b'*' pattern ≡ true
    → (first : Text) × (p : Text) × (ps : List Text) × (split b'*' pattern ≡ first ∷ p ∷ ps)
unfolding split contains_char
split-star [] h = cc
split-star (c ∷ s) h = elim (Bool-cases (c == b'*')) [
  | inl star ↦ let (p, ps, e) = split-cons s in ([], p, ps, rw (star, e))
  | inr other ↦
      let later : contains_char b'*' s ≡ true = (rw other at h) in
      let (first, p, ps, e) = split-star s later in
      (c ∷ first, p, ps, rw other (cons_head-Two c (split b'*' s) first p ps e))
]

-- The text holds the pattern somewhere.
contains→Holds :
    (s p : Text) → contains s p ≡ true → (front : Text) × (back : Text) × (s ≡ front ++ (p ++ back))
unfolding contains
contains→Holds s p h = elim (Option-cases (after_first p s)) [
  | inl missing ↦ let no : false ≡ true = (rw missing at h) in absurd (false≢true no)
  | inr (r, found) ↦ let (front, e) = after_first→append p s found in (front, r, e)
]

Holds→contains : (s p front back : Text) → s ≡ front ++ (p ++ back) → contains s p ≡ true
unfolding contains
Holds→contains s p front back e =
    let (r, found, x) = after_first-Suffix p front back in rw (e, found)

-- What a pattern asks of a text: with a `*`, that its pieces stand in the text one behind the
-- other, with any gap before each, and the last one at its end; with none, that the text holds it.
abbrev pub Matches : Text → Text → Type 0
Matches pattern s =
    if contains_char b'*' pattern
    then Spelled (split b'*' pattern) s
    else (front : Text) × (back : Text) × (s ≡ front ++ (pattern ++ back))

no_pieces-Spelled : (s : Text) → Spelled ([] ∷ [] ∷ []) s
no_pieces-Spelled s = ([], s, refl, (s, sym (append-nil s)))

-- A pattern that is neither empty nor a lone `*`.
glob_match-parts :
    (pattern s : Text)
    → is_empty pattern ≡ false
    → text_eq pattern (codes "*") ≡ false
    → contains_char b'*' pattern ≡ true
    → (glob_match pattern s ≡ true) ↔ Spelled (split b'*' pattern) s
unfolding glob_match
glob_match-parts pattern s e n h =
    let (first, p, ps, parts) = split-star pattern h in
    let shut : glob_match pattern s ≡ match_parts (first ∷ p ∷ ps) s = rw (e, n, h, parts) in
    rw (shut, parts) (match_parts→Spelled first p ps s, Spelled→match_parts first p ps s)

-- A pattern without a `*`.
glob_match-text :
    (pattern s : Text)
    → is_empty pattern ≡ false
    → text_eq pattern (codes "*") ≡ false
    → contains_char b'*' pattern ≡ false
    → (glob_match pattern s ≡ true)
      ↔ ((front : Text) × (back : Text) × (s ≡ front ++ (pattern ++ back)))
unfolding glob_match
glob_match-text pattern s e n h =
    let shut : glob_match pattern s ≡ contains s pattern = rw (e, n, h) in
    rw shut
      (contains→Holds s pattern, (λ (front, back, at). Holds→contains s pattern front back at))

Matches-nil : (s : Text) → Matches [] s
unfolding contains_char
Matches-nil s = ([], s, refl)

Matches-star : (s : Text) → Matches (codes "*") s
unfolding contains_char split
Matches-star s = no_pieces-Spelled s

glob_match-nil : (s : Text) → glob_match [] s ≡ true
unfolding glob_match
glob_match-nil s = refl

glob_match-star :
    (pattern s : Text) → text_eq pattern (codes "*") ≡ true → glob_match pattern s ≡ true
unfolding glob_match
glob_match-star pattern s e = elim (Bool-cases (is_empty pattern)) [
  | inl h ↦ rw h
  | inr h ↦ rw (h, e)
]

-- For every pattern and text, `glob_match` answers true exactly where the text matches: with a `*`
-- in the pattern, its pieces stand in the text one behind the other, with any gap before each, the
-- first included, and the last one ends the text; with none, the text holds the pattern.
pub glob_match_iff : (pattern s : Text) → (glob_match pattern s ≡ true) ↔ Matches pattern s
glob_match_iff [] s = ((λ h. Matches-nil s), (λ m. glob_match-nil s))
glob_match_iff (c ∷ p) s = elim (Bool-cases (text_eq (c ∷ p) (codes "*"))) [
  | inl star ↦ (
    (λ h. subst (λ t. Matches t s) (sym (text_eq→eq (c ∷ p) (codes "*") star)) (Matches-star s)),
    (λ m. glob_match-star (c ∷ p) s star),
  )
  | inr longer ↦ elim (Bool-cases (contains_char b'*' (c ∷ p))) [
    | inl some_star ↦ rw some_star (glob_match-parts (c ∷ p) s refl longer some_star)
    | inr no_star ↦ rw no_star (glob_match-text (c ∷ p) s refl longer no_star)
  ]
]
