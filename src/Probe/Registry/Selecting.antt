-- ===== src/Probe/Registry/Selecting.antt =====
-- Which probes are on after a selection by a pattern, of rthas/src/probe.rs.
use rthas.Prelude.{
  all_below, all_below-lt, ℕ, suc, ◌+◌, ◌-◌, ◌<◌, bit_and, bit_or, ◌≡◌, refl, sym, inl, inr, Bool,
  true, false, false≢true, not, ◌&&◌, List, [], ◌∷◌, arith, ◌==◌, if◌then◌else◌, Bool-cases, All,
  Text,
}
use rthas.Glob.{glob_match}
use rthas.Probe.{Probe, flag_enabled, flag_stack, enabled, set_enabled, capture_stack}
use rthas.Probe.Registry.{differs, set_enabled_matching}

abbrev pub bit_on : ℕ → ℕ → Bool
bit_on flag bit = not (bit_and flag bit == 0)

abbrev pub same : Bool → Bool → Bool
same true b = b
same false b = not b

pub same→eq : (a b : Bool) → same a b ≡ true → a ≡ b
same→eq true true e = refl
same→eq true false e = sym e
same→eq false true e = e
same→eq false false e = refl

-- What the two masks do to the two flags of a byte.
abbrev masks : ℕ → Bool
masks flag =
    bit_on (bit_or flag flag_enabled) flag_enabled
    && (not (bit_on (bit_and flag (255 - flag_enabled)) flag_enabled)
        && (same (bit_on (bit_or flag flag_enabled) flag_stack) (bit_on flag flag_stack)
            && same (bit_on (bit_and flag (255 - flag_enabled)) flag_stack)
                (bit_on flag flag_stack)))

masks-all : all_below 256 masks ≡ true
masks-all = refl

four :
    (a b c d : Bool)
    → (a && (b && (c && d))) ≡ true
    → (a ≡ true) × (b ≡ true) × (c ≡ true) × (d ≡ true)
four true true true d e = (refl, refl, refl, e)
four true true false d e = absurd (false≢true e)
four true false c d e = absurd (false≢true e)
four false b c d e = absurd (false≢true e)

not-true : (b : Bool) → not b ≡ true → b ≡ false
not-true true e = sym e
not-true false e = refl

-- `flag` is a byte.
abbrev pub Byte : Probe → Type 0
Byte p = p.flag < 256

set_enabled-flags :
    (on : Bool) (p : Probe)
    → Byte p
    → (enabled (set_enabled on p) ≡ on) × (capture_stack (set_enabled on p) ≡ capture_stack p)
unfolding enabled set_enabled capture_stack
set_enabled-flags on p lt =
    let flag = p.flag in
    let (a, b, c, d) =
      four (bit_on (bit_or flag flag_enabled) flag_enabled)
        (not (bit_on (bit_and flag (255 - flag_enabled)) flag_enabled))
        (same (bit_on (bit_or flag flag_enabled) flag_stack) (bit_on flag flag_stack))
        (same (bit_on (bit_and flag (255 - flag_enabled)) flag_stack) (bit_on flag flag_stack))
        (all_below-lt 256 masks masks-all flag lt) in
    pick on a (not-true (bit_on (bit_and flag (255 - flag_enabled)) flag_enabled) b)
      (same→eq (bit_on (bit_or flag flag_enabled) flag_stack) (bit_on flag flag_stack) c)
      (same→eq (bit_on (bit_and flag (255 - flag_enabled)) flag_stack) (bit_on flag flag_stack) d)
  where
    pick :
        (on : Bool)
        → bit_on (bit_or p.flag flag_enabled) flag_enabled ≡ true
        → bit_on (bit_and p.flag (255 - flag_enabled)) flag_enabled ≡ false
        → bit_on (bit_or p.flag flag_enabled) flag_stack ≡ bit_on p.flag flag_stack
        → bit_on (bit_and p.flag (255 - flag_enabled)) flag_stack ≡ bit_on p.flag flag_stack
        → (enabled (set_enabled on p) ≡ on) × (capture_stack (set_enabled on p) ≡ capture_stack p)
    pick true a b c d = (a, c)
    pick false a b c d = (b, d)

set_enabled-path : (on : Bool) (p : Probe) → (set_enabled on p).path ≡ p.path
unfolding set_enabled
set_enabled-path on p = refl

-- A probe before and after: a match is on or off as asked for, every other one is as it was, and
-- whether it captures the stack stays.
abbrev pub Selected : Text → Bool → Probe → Probe → Type 0
Selected pattern on p p' =
    (p'.path ≡ p.path)
    × (enabled p' ≡ (if glob_match pattern p.path then on else enabled p))
    × (capture_stack p' ≡ capture_stack p)

abbrev pub AllSelected : Text → Bool → List Probe → List Probe → Type 0
AllSelected pattern on [] [] = Unit
AllSelected pattern on (p ∷ ps) (q ∷ qs) = Selected pattern on p q × AllSelected pattern on ps qs
AllSelected pattern on [] (q ∷ qs) = ⊥
AllSelected pattern on (p ∷ ps) [] = ⊥

-- How many are on before and off after, or the other way round.
abbrev pub changes : List Probe → List Probe → ℕ
changes [] qs = 0
changes (p ∷ ps) [] = 0
changes (p ∷ ps) (q ∷ qs) =
    if differs (enabled p) (enabled q) then suc (changes ps qs) else changes ps qs

one_more : (b : Bool) (n : ℕ) → (if b then 1 + n else n) ≡ (if b then suc n else n)
one_more true n = omega arith
one_more false n = refl

differs_self : (b : Bool) → differs b b ≡ false
differs_self true = refl
differs_self false = refl

-- For probes with byte flags and every pattern, `set_enabled_matching` turns on or off exactly the
-- probes whose paths the pattern matches, leaves all else as it was, the flag for stacks included,
-- and answers how many probes changed.
pub set_enabled_matching-AllSelected :
    (pattern : Text) (on : Bool) (probes : List Probe)
    → All Byte probes
    → AllSelected pattern on probes (set_enabled_matching pattern on probes).0
      × ((set_enabled_matching pattern on probes).1
          ≡ changes probes (set_enabled_matching pattern on probes).0)
unfolding set_enabled_matching
set_enabled_matching-AllSelected pattern on [] all = (tt, refl)
set_enabled_matching-AllSelected pattern on (p ∷ probes) (byte, all) =
    let (rest, count) = set_enabled_matching-AllSelected pattern on probes all in
    elim (Bool-cases (glob_match pattern p.path)) [
      | inl hit ↦
          let (now, stacks) = set_enabled-flags on p byte in
          rw hit (
            ((set_enabled-path on p, rw hit now, stacks), rest),
            rw (now, count)
                (one_more (differs (enabled p) on)
                  (changes probes (set_enabled_matching pattern on probes).0)),
          )
      | inr miss ↦ rw miss (((refl, rw miss, refl), rest), rw (differs_self (enabled p)) count)
    ]
