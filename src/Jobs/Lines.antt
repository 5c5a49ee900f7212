-- ===== src/Jobs/Lines.antt =====
-- Command lines as rthas/src/jobs.rs reads them.
use rthas.Prelude.{
  ℕ, ◌≡◌, refl, sym, ap, subst, ◌∙◌, inl, inr, Bool, true, false, Option, none, some, List, [], ◌∷◌,
  ◌++◌, append-nil, append_assoc, if◌then◌else◌, Option-cases, All, All-append, All-map, Text,
  codes, text_eq, is_empty, is_whitespace, cons_head,
}
use rthas.Prelude.{split_whitespace, join, begins_word}
use rthas.Jobs.{unsnoc, take_ampersand, take_redirect, parse_job_line}

-- A word of a command line: not empty, and without white space.
abbrev pub Word : Text → Type 0
Word w = (is_empty w ≡ false) × All (λ c. is_whitespace c ≡ false) w

pub split_whitespace-char :
    (c : ℕ) (s : Text)
    → is_whitespace c ≡ false
    → split_whitespace (c ∷ s)
      ≡ (if begins_word s then cons_head c (split_whitespace s) else (c ∷ []) ∷ split_whitespace s)
unfolding split_whitespace
split_whitespace-char c s h = rw h

split_whitespace-space : (s : Text) → split_whitespace (b' ' ∷ s) ≡ split_whitespace s
unfolding split_whitespace is_whitespace
split_whitespace-space s = refl

begins_word-space : (s : Text) → begins_word (b' ' ∷ s) ≡ false
unfolding is_whitespace
begins_word-space s = refl

split_whitespace-nil : split_whitespace [] ≡ []
unfolding split_whitespace
split_whitespace-nil = refl

split_whitespace-Word : (w : Text) → Word w → split_whitespace w ≡ w ∷ []
split_whitespace-Word [] (e, h) = cc
split_whitespace-Word (c ∷ []) (e, (h, hs)) =
    rw (split_whitespace-char c [] h, split_whitespace-nil)
split_whitespace-Word (c ∷ d ∷ w) (e, (h, (k, hs))) =
    rw (split_whitespace-char c (d ∷ w) h, k, split_whitespace-Word (d ∷ w) (refl, (k, hs)))

split_whitespace-next :
    (w s : Text) → Word w → split_whitespace (w ++ b' ' ∷ s) ≡ w ∷ split_whitespace s
split_whitespace-next [] s (e, h) = cc
split_whitespace-next (c ∷ []) s (e, (h, hs)) =
    rw (split_whitespace-char c (b' ' ∷ s) h, begins_word-space s, split_whitespace-space s)
split_whitespace-next (c ∷ d ∷ w) s (e, (h, (k, hs))) = rw (
  split_whitespace-char c (d ∷ (w ++ b' ' ∷ s)) h,
  k,
  split_whitespace-next (d ∷ w) s (refl, (k, hs)),
)

pub split_whitespace-join :
    (words : List Text) → All Word words → split_whitespace (join (b' ' ∷ []) words) ≡ words
unfolding join
split_whitespace-join [] all = split_whitespace-nil
split_whitespace-join (w ∷ []) (one, all) = split_whitespace-Word w one
split_whitespace-join (w ∷ v ∷ words) (one, all) =
    split_whitespace-next w (join (b' ' ∷ []) (v ∷ words)) one
    ∙ ap (◌∷◌ w) (split_whitespace-join (v ∷ words) all)

unsnoc-append {ℓ} : {A : Type ℓ} (xs : List A) (x : A) → unsnoc (xs ++ x ∷ []) ≡ some (xs, x)
unsnoc-append [] x = refl
unsnoc-append (y ∷ xs) x = rw (unsnoc-append xs x)

-- No word of a command or path is one of the signs.
abbrev pub Plain : Text → Type 0
Plain w =
    Word w
    × (text_eq w (codes "&") ≡ false)
    × (text_eq w (codes ">") ≡ false)
    × (text_eq w (codes ">>") ≡ false)

abbrev pub Target : Option (Text × Bool) → Type 0
Target none = Unit
Target (some (path, append)) = Plain path

-- A command line as it is written.
abbrev pub arrow : Bool → Text
arrow true = codes ">>"
arrow false = codes ">"

abbrev pub redirect_words : Option (Text × Bool) → List Text
redirect_words none = []
redirect_words (some (path, append)) = arrow append ∷ path ∷ []

abbrev pub ampersand : Bool → List Text
ampersand true = codes "&" ∷ []
ampersand false = []

unsnoc-All :
    (P : Text → Type 0) (xs : List Text) {r : List Text × Text}
    → All P xs
    → unsnoc xs ≡ some r
    → P r.1 × All P r.0
unsnoc-All P [] all e = cc
unsnoc-All P (x ∷ xs) {r} (one, all) e = elim (Option-cases (unsnoc xs)) [
  | inl alone ↦
      let here : some ([], x) ≡ some r = (rw alone at e) in
      let same : ([], x) ≡ r = cc in subst (λ q. P q.1 × All P q.0) same (one, tt)
  | inr (q, more) ↦
      let here : some (x ∷ q.0, q.1) ≡ some r = (rw more at e) in
      let same : (x ∷ q.0, q.1) ≡ r = cc in
      let (last, front) = unsnoc-All P xs all more in
      subst (λ q. P q.1 × All P q.0) same (last, (one, front))
]

abbrev NotAmp : Text → Type 0
NotAmp w = text_eq w (codes "&") ≡ false

take_ampersand-plain :
    (toks : List Text)
    → All NotAmp toks
    → (background : Bool) → take_ampersand (toks ++ ampersand background) ≡ (toks, background)
unfolding take_ampersand
take_ampersand-plain toks all true = rw (unsnoc-append toks (codes "&"), take_ampersand)
take_ampersand-plain toks all false = rw (append-nil toks) (elim (Option-cases (unsnoc toks)) [
  | inl e ↦ rw (e, take_ampersand)
  | inr (r, e) ↦ let (last, front) = unsnoc-All NotAmp toks all e in rw (e, last, take_ampersand)
])

take_redirect-words :
    (words : List Text) (redirect : Option (Text × Bool))
    → All Plain words
    → Target redirect
    → take_redirect (words ++ redirect_words redirect) ≡ (words, redirect)
unfolding take_redirect
take_redirect-words words none all target =
    rw (append-nil words) (elim (Option-cases (unsnoc words)) [
      | inl e ↦ rw (e, take_redirect)
      | inr (r, e) ↦
          let (last, front) = unsnoc-All Plain words all e in
          elim (Option-cases (unsnoc r.0)) [
            | inl d ↦ rw (e, take_redirect, d)
            | inr (q, d) ↦
                let ((w, amp, once, twice), rest) = unsnoc-All Plain r.0 front d in
                rw (e, take_redirect, d, twice, once)
          ]
    ])
take_redirect-words words (some (path, true)) all target =
    ap take_redirect (sym (append_assoc words (arrow true ∷ []) (path ∷ [])))
    ∙ rw (
      unsnoc-append (words ++ arrow true ∷ []) path,
      take_redirect,
      unsnoc-append words (arrow true),
    )
take_redirect-words words (some (path, false)) all target =
    ap take_redirect (sym (append_assoc words (arrow false ∷ []) (path ∷ [])))
    ∙ rw (
      unsnoc-append (words ++ arrow false ∷ []) path,
      take_redirect,
      unsnoc-append words (arrow false),
    )

Plain-NotAmp : (words : List Text) → All Plain words → All NotAmp words
Plain-NotAmp words all = All-map (λ w (word, amp, once, twice). amp) words all

redirect_words-NotAmp :
    (redirect : Option (Text × Bool)) → Target redirect → All NotAmp (redirect_words redirect)
redirect_words-NotAmp none target = tt
redirect_words-NotAmp (some (path, true)) (word, amp, once, twice) = (refl, (amp, tt))
redirect_words-NotAmp (some (path, false)) (word, amp, once, twice) = (refl, (amp, tt))

redirect_words-Word :
    (redirect : Option (Text × Bool)) → Target redirect → All Word (redirect_words redirect)
unfolding is_whitespace
redirect_words-Word none target = tt
redirect_words-Word (some (path, true)) (word, amp, once, twice) =
    ((refl, (refl, (refl, tt))), (word, tt))
redirect_words-Word (some (path, false)) (word, amp, once, twice) = ((refl, (refl, tt)), (word, tt))

ampersand-Word : (background : Bool) → All Word (ampersand background)
unfolding is_whitespace
ampersand-Word true = ((refl, (refl, tt)), tt)
ampersand-Word false = tt

-- A command of words, then a redirection or none, then `&` or nothing, written with a space between
-- each two, is read as that command, that redirection and in the background or not. The words of the
-- command and the path are not empty, have no white space, and none of them is `&`, `>` or `>>`.
pub parse_job_line-join :
    (words : List Text) (redirect : Option (Text × Bool)) (background : Bool)
    → All Plain words
    → Target redirect
    → parse_job_line (join (b' ' ∷ []) ((words ++ redirect_words redirect) ++ ampersand background))
      ≡ record { cmd = join (b' ' ∷ []) words; redirect = redirect; background = background }
unfolding parse_job_line
parse_job_line-join words redirect background all target =
    let toks = words ++ redirect_words redirect in
    let each : All Word (toks ++ ampersand background) =
      All-append Word toks (ampersand background)
        (All-append Word words (redirect_words redirect)
          (All-map (λ w (word, amp, once, twice). word) words all)
          (redirect_words-Word redirect target))
        (ampersand-Word background) in
    let no_amp : All NotAmp toks =
      All-append NotAmp words (redirect_words redirect) (Plain-NotAmp words all)
        (redirect_words-NotAmp redirect target) in
    rw (
      split_whitespace-join (toks ++ ampersand background) each,
      take_ampersand-plain toks no_amp background,
      take_redirect-words words redirect all target,
    )
