-- ===== src/Glob/Spec.antt =====
-- What `glob_match` decides: the pieces of the pattern stand in the text in order.
use rthas.Prelude.{
  ◌+◌, ◌≡◌, refl, sym, ap, ◌∙◌, inl, inr, true, false, some, List, [], ◌∷◌, ◌++◌, append-nil,
  append_assoc, arith, Bool-cases, Option-cases, length, take, drop, drop-length-append,
  take-append-drop, drop-drop, add_comm, Text, text_eq, strip_prefix, after_first, ends_with,
}
use rthas.Prelude.{text_eq→eq, text_eq_self, strip_prefix→append, strip_prefix-append}
use rthas.Glob.{consume, ends, middles, last_of}

-- The pieces stand in the text one behind the other, with a gap before each; the last one ends it.
abbrev pub Spelled : List Text → Text → Type 0
Spelled [] s = Unit
Spelled (p ∷ []) s = (gap : Text) × (s ≡ gap ++ p)
Spelled (p ∷ q ∷ qs) s =
    (gap : Text) × (rest : Text) × (s ≡ gap ++ (p ++ rest)) × Spelled (q ∷ qs) rest

-- A text is a suffix of another.
abbrev pub Suffix : Text → Text → Type 0
Suffix r s = (front : Text) × (s ≡ front ++ r)

pub Suffix-Spelled :
    (p : Text) (ps : List Text) (r s : Text) → Suffix r s → Spelled (p ∷ ps) r → Spelled (p ∷ ps) s
Suffix-Spelled p [] r s (front, e) (gap, d) =
    (front ++ gap, rw (e, d) (sym (append_assoc front gap p)))
Suffix-Spelled p (q ∷ qs) r s (front, e) (gap, rest, d, more) =
    (front ++ gap, rest, rw (e, d) (sym (append_assoc front gap (p ++ rest))), more)

-- The leftmost occurrence, and what is left behind it.
pub after_first→append : (p s : Text) {r : Text} → after_first p s ≡ some r → Suffix (p ++ r) s
unfolding after_first
after_first→append p [] h = ([], strip_prefix→append p [] h)
after_first→append p (c ∷ s) {r} h = elim (Option-cases (strip_prefix p (c ∷ s))) [
  | inl no_match ↦
      let rest : after_first p s ≡ some r = (rw no_match at h) in
      let (front, e) = after_first→append p s rest in (c ∷ front, ap (◌∷◌ c) e)
  | inr (r', found) ↦
      let hit : some r' ≡ some r = (rw found at h) in
      let e : r' ≡ r = cc in ([], strip_prefix→append p (c ∷ s) (found ∙ ap some e))
]

Suffix-append : (gap p r' r : Text) → p ++ r ≡ gap ++ (p ++ r') → Suffix r' r
Suffix-append gap p r' r h =
    let n = length gap in
    let m = length p in
    let tail : drop n r ≡ r' =
      ap (drop n) (sym (drop-length-append p r))
      ∙ drop-drop n m (p ++ r)
      ∙ ap (drop (m + n)) h
      ∙ ap (λ k. drop k (gap ++ (p ++ r'))) (add_comm m n)
      ∙ sym (drop-drop m n (gap ++ (p ++ r')))
      ∙ ap (drop m) (drop-length-append gap (p ++ r'))
      ∙ drop-length-append p r' in
    (take n r, sym (take-append-drop n r) ∙ ap (◌++◌ (take n r)) tail)

pub after_first-nil : (s : Text) → after_first [] s ≡ some s
unfolding after_first strip_prefix
after_first-nil [] = refl
after_first-nil (c ∷ s) = refl

pub after_first-Suffix :
    (p gap r' : Text) → (r : Text) × (after_first p (gap ++ (p ++ r')) ≡ some r) × Suffix r' r
unfolding after_first
after_first-Suffix [] [] r' = (r', after_first-nil r', ([], refl))
after_first-Suffix (a ∷ p) [] r' = (r', rw (strip_prefix-append (a ∷ p) r'), ([], refl))
after_first-Suffix p (c ∷ gap) r' = elim (Option-cases (strip_prefix p (c ∷ (gap ++ (p ++ r'))))) [
  | inl no_match ↦ let (r, e, x) = after_first-Suffix p gap r' in (r, rw (no_match, e), x)
  | inr (r, found) ↦ (
    r,
    rw found,
    Suffix-append (c ∷ gap) p r' r (sym (strip_prefix→append p (c ∷ (gap ++ (p ++ r'))) found)),
  )
]

ends_with→Suffix : (p s : Text) → ends_with s p ≡ true → Suffix p s
unfolding ends_with
ends_with→Suffix p [] h = ([], text_eq→eq [] p h)
ends_with→Suffix p (c ∷ s) h = elim (Bool-cases (text_eq (c ∷ s) p)) [
  | inl whole ↦ ([], text_eq→eq (c ∷ s) p whole)
  | inr part ↦
      let later : ends_with s p ≡ true = (rw part at h) in
      let (front, e) = ends_with→Suffix p s later in (c ∷ front, ap (◌∷◌ c) e)
]

ends_with-append : (front p : Text) → ends_with (front ++ p) p ≡ true
unfolding ends_with
ends_with-append [] [] = refl
ends_with-append [] (c ∷ p) = rw (text_eq_self (c ∷ p))
ends_with-append (c ∷ front) p = ground (arith, ends_with-append front p)

-- The greedy consumption of the middles, then the test of the last piece.
pub consume→Spelled :
    (p : Text) (ps : List Text) (rest : Text)
    → ends (last_of p ps) (consume (middles p ps) rest) ≡ true
    → Spelled (p ∷ ps) rest
unfolding consume
consume→Spelled [] [] rest h = (rest, sym (append-nil rest))
consume→Spelled (c ∷ p) [] rest h = ends_with→Suffix (c ∷ p) rest h
consume→Spelled [] (q ∷ qs) rest h = ([], rest, refl, consume→Spelled q qs rest h)
consume→Spelled (c ∷ p) (q ∷ qs) rest h = elim (Option-cases (after_first (c ∷ p) rest)) [
  | inl missing ↦ let no : false ≡ true = (rw (missing, consume) at h) in cc
  | inr (rest', found) ↦
      let more : ends (last_of q qs) (consume (middles q qs) rest') ≡ true =
        (rw (found, consume) at h) in
      let (gap, e) = after_first→append (c ∷ p) rest found in
      (gap, rest', e, consume→Spelled q qs rest' more)
]

pub Spelled→consume :
    (p : Text) (ps : List Text) (rest : Text)
    → Spelled (p ∷ ps) rest
    → ends (last_of p ps) (consume (middles p ps) rest) ≡ true
unfolding consume
Spelled→consume [] [] rest h = refl
Spelled→consume (c ∷ p) [] rest (gap, e) = rw e (ends_with-append gap (c ∷ p))
Spelled→consume [] (q ∷ qs) rest (gap, rest', e, more) =
    Spelled→consume q qs rest (Suffix-Spelled q qs rest' rest (gap, e) more)
Spelled→consume (c ∷ p) (q ∷ qs) rest (gap, rest', e, more) =
    let (r, found, x) = after_first-Suffix (c ∷ p) gap rest' in
    rw (e, found, consume) (Spelled→consume q qs r (Suffix-Spelled q qs rest' r x more))
