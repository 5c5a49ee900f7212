-- ===== src/Client/Scan/Found.antt =====
-- What the search of a file in pieces finds, of rthas-cli/src/main.rs.
use rthas.Prelude.{
  ℕ, zero, suc, ◌+◌, ◌-◌, ◌≤◌, ◌<◌, ◌≡◌, refl, sym, ap, ◌∙◌, inl, inr, Bool, true, false,
  false≢true, ◌||◌, Option, none, some, List, [], ◌∷◌, ◌++◌, append-nil, append_assoc, arith, ◌==◌,
  if◌then◌else◌, ==_iff, Bool-cases, Option-cases, length, drop, All, length-drop, is_empty,
  strip_prefix, starts_with,
}
use rthas.Client.Scan.{position, contains_fuel, contains, carry_of, scan, file_contains}

-- The needle stands somewhere.
abbrev pub occurs : List ℕ → List ℕ → Bool
occurs needle [] = starts_with [] needle
occurs needle (c ∷ s) = starts_with (c ∷ s) needle || occurs needle s

starts_with-append :
    (needle h r : List ℕ)
    → length needle ≤ length h
    → starts_with (h ++ r) needle ≡ starts_with h needle
unfolding starts_with strip_prefix
starts_with-append [] h r le = refl
starts_with-append (n ∷ needle) [] r le = absurd (omega arith)
starts_with-append (n ∷ needle) (c ∷ h) r le = elim (Bool-cases (n == c)) [
  | inl same ↦ rw same (starts_with-append needle h r (omega arith))
  | inr other ↦ rw other refl
]

starts_with-append_true :
    (needle h r : List ℕ) → starts_with h needle ≡ true → starts_with (h ++ r) needle ≡ true
unfolding starts_with strip_prefix
starts_with-append_true [] h r e = refl
starts_with-append_true (n ∷ needle) [] r e = absurd (false≢true e)
starts_with-append_true (n ∷ needle) (c ∷ h) r e = elim (Bool-cases (n == c)) [
  | inl same ↦
      let e' : starts_with h needle ≡ true = rw same at e in
      rw same (starts_with-append_true needle h r e')
  | inr other ↦ let no : false ≡ true = (rw other at e) in absurd (false≢true no)
]

or_left : (a b : Bool) → a ≡ true → (a || b) ≡ true
or_left true b e = refl
or_left false b e = absurd (false≢true e)

or_right : (a b : Bool) → b ≡ true → (a || b) ≡ true
or_right true b e = refl
or_right false b e = e

or_false : (a b : Bool) → (a || b) ≡ false → (a ≡ false) × (b ≡ false)
or_false true b e = absurd (false≢true (sym e))
or_false false b e = (refl, e)

occurs-append_true : (needle h r : List ℕ) → occurs needle h ≡ true → occurs needle (h ++ r) ≡ true
occurs-append_true needle [] [] e = e
occurs-append_true needle [] (c ∷ r) e =
    or_left (starts_with (c ∷ r) needle) (occurs needle r)
      (starts_with-append_true needle [] (c ∷ r) e)
occurs-append_true needle (c ∷ h) r e = elim (Bool-cases (starts_with (c ∷ h) needle)) [
  | inl here ↦
      or_left (starts_with (c ∷ (h ++ r)) needle) (occurs needle (h ++ r))
        (starts_with-append_true needle (c ∷ h) r here)
  | inr not_here ↦
      let e' : occurs needle h ≡ true = (rw not_here at e) in
      or_right (starts_with (c ∷ (h ++ r)) needle) (occurs needle (h ++ r))
        (occurs-append_true needle h r e')
]

occurs-drop :
    (needle : List ℕ) (k : ℕ) (h : List ℕ)
    → occurs needle h ≡ false
    → occurs needle (drop k h) ≡ false
occurs-drop needle zero h e = e
occurs-drop needle (suc k) [] e = e
occurs-drop needle (suc k) (c ∷ h) e =
    occurs-drop needle k h (or_false (starts_with (c ∷ h) needle) (occurs needle h) e).1

-- The overlap is enough.
occurs-overlap :
    (needle : List ℕ) (k : ℕ) (h r : List ℕ)
    → k ≤ length h + 1 - length needle
    → occurs needle h ≡ false
    → occurs needle (drop k h ++ r) ≡ occurs needle (h ++ r)
occurs-overlap needle zero h r le e = refl
occurs-overlap needle (suc k) [] r le e = refl
occurs-overlap needle (suc k) (c ∷ h) r le e =
    let (here, later) = or_false (starts_with (c ∷ h) needle) (occurs needle h) e in
    let still : starts_with (c ∷ (h ++ r)) needle ≡ false =
      starts_with-append needle (c ∷ h) r (omega arith) ∙ here in
    occurs-overlap needle k h r (omega arith) later ∙ rw still refl

position-none :
    (first : ℕ) (needle s : List ℕ) → position first s ≡ none → occurs (first ∷ needle) s ≡ false
unfolding position starts_with strip_prefix
position-none first needle [] e = refl
position-none first needle (b ∷ s) e = elim (Bool-cases (b == first)) [
  | inl here ↦ let no : ◌≡◌ {A = Option ℕ} (some 0) none = (rw here at e) in cc
  | inr other ↦
      let ne : (first == b) ≡ false = ground arith in
      rw ne (position-none first needle s (later (position first s) (rw other at e)))
]
  where
    later : (o : Option ℕ) → elim o [ none ↦ none | some i ↦ some (suc i) ] ≡ none → o ≡ none
    later none e = refl
    later (some i) e = cc

position-some :
    (first i : ℕ) (needle s : List ℕ)
    → position first s ≡ some i
    → (drop i s ≡ first ∷ drop (suc i) s)
      × (occurs (first ∷ needle) s ≡ occurs (first ∷ needle) (drop i s))
unfolding position starts_with strip_prefix
position-some first i needle [] e = cc
position-some first i needle (b ∷ s) e = elim (Bool-cases (b == first)) [
  | inl here ↦
      let zero_here : some 0 ≡ some i = (rw here at e) in
      let at_zero : i ≡ 0 = cc in rw at_zero (ap (λ k. k ∷ s) ((==_iff b first).0 here), refl)
  | inr other ↦
      let ne : (first == b) ≡ false = ground arith in
      let (j, before, at_j) = later (position first s) (rw other at e) in
      let (front, same) = position-some first j needle s before in rw at_j (front, rw ne same)
]
  where
    later :
        (o : Option ℕ)
        → elim o [ none ↦ none | some k ↦ some (suc k) ] ≡ some i
        → (j : ℕ) × (o ≡ some j) × (i ≡ suc j)
    later none e = cc
    later (some k) e = (k, refl, cc)

if_or : (a b : Bool) → (if a then true else b) ≡ (a || b)
if_or true b = refl
if_or false b = refl

contains_fuel-occurs :
    (fuel first : ℕ) (needle s : List ℕ)
    → length s < fuel
    → contains_fuel fuel first (first ∷ needle) s ≡ occurs (first ∷ needle) s
unfolding contains_fuel
contains_fuel-occurs zero first needle s lt = absurd (omega arith)
contains_fuel-occurs (suc fuel) first needle s lt = elim (Option-cases (position first s)) [
  | inl nowhere ↦ rw (contains_fuel, nowhere) (sym (position-none first needle s nowhere))
  | inr (i, here) ↦
      let (front, same) = position-some first i needle s here in
      let shorter : length (drop (suc i) s) < fuel =
        omega (arith, ap length front, length-drop i s, length-drop (suc i) s) in
      let ih = contains_fuel-occurs fuel first needle (drop (suc i) s) shorter in
      rw (contains_fuel, here)
        (ap (λ later. if starts_with (drop i s) (first ∷ needle) then true else later) ih
          ∙ if_or (starts_with (drop i s) (first ∷ needle))
              (occurs (first ∷ needle) (drop (suc i) s))
          ∙ ap (λ t. starts_with t (first ∷ needle) || occurs (first ∷ needle) (drop (suc i) s))
              front
          ∙ sym (same ∙ ap (occurs (first ∷ needle)) front))
]

contains-occurs :
    (first : ℕ) (needle s : List ℕ) → contains s (first ∷ needle) ≡ occurs (first ∷ needle) s
unfolding contains
contains-occurs first needle s = contains_fuel-occurs (suc (length s)) first needle s (omega arith)

-- The bytes of reads that succeed and are not empty.
abbrev pub joined : List (List ℕ) → List ℕ
joined [] = []
joined (r ∷ reads) = r ++ joined reads

abbrev pub NonEmpty : List ℕ → Type 0
NonEmpty r = is_empty r ≡ false

-- What the search answers when the reads end so: the end of the file, or a failure.
abbrev pub ending : Bool → Bool → Option Bool
ending found true = if found then some true else none
ending found false = some found

abbrev pub all_reads : List (List ℕ) → Bool → List (Option (List ℕ))
all_reads [] true = none ∷ []
all_reads [] false = []
all_reads (r ∷ reads) fails = some r ∷ all_reads reads fails

scan-occurs :
    (first : ℕ) (needle carry : List ℕ) (reads : List (List ℕ)) (fails : Bool)
    → All NonEmpty reads
    → occurs (first ∷ needle) carry ≡ false
    → scan (first ∷ needle) (length needle) carry (all_reads reads fails)
      ≡ ending (occurs (first ∷ needle) (carry ++ joined reads)) fails
unfolding scan
scan-occurs first needle carry [] true all e = rw (append-nil carry, e) refl
scan-occurs first needle carry [] false all e = rw (append-nil carry, e) refl
scan-occurs first needle carry ([] ∷ reads) fails (empty, all) e = cc
scan-occurs first needle carry ((b ∷ bytes) ∷ reads) fails (shown, all) e =
    let N = first ∷ needle in
    let haystack = carry ++ b ∷ bytes in
    let whole : occurs N (haystack ++ joined reads)
        ≡ occurs N (carry ++ ((b ∷ bytes) ++ joined reads)) =
      ap (occurs N) (append_assoc carry (b ∷ bytes) (joined reads)) in
    elim (Bool-cases (occurs N haystack)) [
      | inl found ↦
          rw (contains-occurs first needle haystack, found)
            (sym (
              ap (λ f. ending f fails)
                (sym whole ∙ occurs-append_true N haystack (joined reads) found)
              ∙ at_once fails))
      | inr not_yet ↦
          rw (contains-occurs first needle haystack, not_yet)
            (scan-occurs first needle (carry_of (length needle) haystack) reads fails all
                (occurs-drop N (length haystack - length needle) haystack not_yet)
              ∙ ap (λ f. ending f fails)
                  (occurs-overlap N (length haystack - length needle) haystack (joined reads)
                      (omega arith) not_yet
                    ∙ whole))
    ]
  where
    at_once : (fails : Bool) → ending true fails ≡ some true
    at_once true = refl
    at_once false = refl

-- `file_contains` says that a marker which is not empty is in a file exactly when it stands
-- somewhere in the bytes that the calls of `read` give, however the calls cut the file into pieces;
-- if a call fails, it says so for what was read, or fails.
pub file_contains-occurs :
    (first : ℕ) (needle : List ℕ) (reads : List (List ℕ)) (fails : Bool)
    → All NonEmpty reads
    → file_contains (some (all_reads reads fails)) (first ∷ needle)
      ≡ ending (occurs (first ∷ needle) (joined reads)) fails
unfolding file_contains starts_with strip_prefix
file_contains-occurs first needle reads fails all =
    let overlap : suc (length needle) - 1 ≡ length needle = omega arith in
    rw overlap (scan-occurs first needle [] reads fails all refl)
