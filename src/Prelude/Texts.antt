-- ===== src/Prelude/Texts.antt =====
-- Lemmas on texts: equality and prefixes.
use mathlib.Core.Path.{◌≡◌, refl, ap}
use mathlib.Core.Logic.{◌≢◌, inl, inr}
use mathlib.Core.Bool.{true, false}
use mathlib.Core.List.{[], ◌∷◌, ◌++◌}
use mathlib.Core.Option.{some}
use native.Mathlib.Omega.{arith}
use rthas.Prelude.Tests.{◌==◌, ==_iff, ==_refl, Bool-cases}
use rthas.Prelude.Chars.{Text, text_eq, strip_prefix}

pub text_eq→eq : (s t : Text) → text_eq s t ≡ true → s ≡ t
text_eq→eq [] [] h = refl
text_eq→eq [] (b ∷ t) h = cc
text_eq→eq (a ∷ s) [] h = cc
text_eq→eq (a ∷ s) (b ∷ t) h = elim (Bool-cases (a == b)) [
  | inl same ↦
      let e : a ≡ b = (==_iff a b).0 same in
      let tail : text_eq s t ≡ true = (rw same at h) in rw (e, text_eq→eq s t tail)
  | inr other ↦ let no : false ≡ true = (rw other at h) in cc
]

pub text_eq_self : (s : Text) → text_eq s s ≡ true
text_eq_self [] = refl
text_eq_self (a ∷ s) = rw (==_refl a, text_eq_self s)

pub text_eq_ne : (s t : Text) → s ≢ t → text_eq s t ≡ false
text_eq_ne s t h = elim (Bool-cases (text_eq s t)) [
  | inl same ↦ absurd (h (text_eq→eq s t same))
  | inr other ↦ other
]

pub text_eq_comm : (s t : Text) → text_eq s t ≡ text_eq t s
text_eq_comm [] [] = refl
text_eq_comm [] (b ∷ t) = refl
text_eq_comm (a ∷ s) [] = refl
text_eq_comm (a ∷ s) (b ∷ t) = ground (arith, text_eq_comm s t)

pub strip_prefix→append : (p s : Text) {r : Text} → strip_prefix p s ≡ some r → s ≡ p ++ r
unfolding strip_prefix
strip_prefix→append [] s h = ground arith
strip_prefix→append (a ∷ p) [] h = cc
strip_prefix→append (a ∷ p) (c ∷ s) {r} h = elim (Bool-cases (a == c)) [
  | inl same ↦
      let rest : strip_prefix p s ≡ some r = ground arith in
      let e : a ≡ c = (==_iff a c).0 same in rw e (ap (◌∷◌ c) (strip_prefix→append p s rest))
  | inr other ↦ ground arith
]

pub strip_prefix-append : (p r : Text) → strip_prefix p (p ++ r) ≡ some r
unfolding strip_prefix
strip_prefix-append [] r = refl
strip_prefix-append (a ∷ p) r = ground (arith, strip_prefix-append p r)
