-- ===== src/Agent/Scope/Restoring.antt =====
-- What scopes of probes leave behind, of rthas/src/agent.rs.
use rthas.Prelude.{
  ℕ, suc, ◌-◌, bit_and, bit_or, ◌≡◌, refl, inl, inr, Bool, true, false, false≢true, ◌&&◌, List, [],
  ◌∷◌, ltb, if◌then◌else◌, ltb→lt, Bool-cases, All, Text,
}
use rthas.Prelude.{all_below, all_below-lt}
use rthas.Glob.{glob_match}
use rthas.Probe.{Probe, flag_enabled, flag_stack, enabled, capture_stack}
use rthas.Probe.Registry.Selecting.{Byte, bit_on, same, same→eq}
use rthas.Agent.Scope.{Saved, save_from, set_flags, turn_on, enter, restore_at, drop_scope}

-- The byte that `set_flags` leaves.
abbrev byte_after : Bool → Bool → ℕ → ℕ
byte_after on capture flag =
    let now = if on then bit_or flag flag_enabled else bit_and flag (255 - flag_enabled) in
    if capture then bit_or now flag_stack else bit_and now (255 - flag_stack)

abbrev as_asked : Bool → Bool → ℕ → Bool
as_asked on capture flag =
    same (bit_on (byte_after on capture flag) flag_enabled) on
    && (same (bit_on (byte_after on capture flag) flag_stack) capture
        && ltb (byte_after on capture flag) 256)

three : (a b c : Bool) → (a && (b && c)) ≡ true → (a ≡ true) × (b ≡ true) × (c ≡ true)
three true true c e = (refl, refl, e)
three true false c e = absurd (false≢true e)
three false b c e = absurd (false≢true e)

as_asked-all : (on capture : Bool) → all_below 256 (as_asked on capture) ≡ true
as_asked-all true true = refl
as_asked-all true false = refl
as_asked-all false true = refl
as_asked-all false false = refl

pub set_flags-flags :
    (on capture : Bool) (p : Probe)
    → Byte p
    → (enabled (set_flags on capture p) ≡ on)
      × (capture_stack (set_flags on capture p) ≡ capture)
      × Byte (set_flags on capture p)
      × ((set_flags on capture p).path ≡ p.path)
unfolding enabled capture_stack set_flags
set_flags-flags on capture p lt =
    let after = byte_after on capture p.flag in
    let (a, b, c) =
      three (same (bit_on after flag_enabled) on) (same (bit_on after flag_stack) capture)
        (ltb after 256)
        (all_below-lt 256 (as_asked on capture) (as_asked-all on capture) p.flag lt) in
    (
      same→eq (bit_on after flag_enabled) on a,
      same→eq (bit_on after flag_stack) capture b,
      ltb→lt after 256 c,
      refl,
    )

-- What a dropped scope does to each probe.
abbrev pub restored : Text → Probe → Probe → Probe
restored pattern p now =
    if glob_match pattern p.path then set_flags (enabled p) (capture_stack p) now else now

abbrev pub restored_all : Text → List Probe → List Probe → List Probe
restored_all pattern [] later = later
restored_all pattern (p ∷ probes) [] = []
restored_all pattern (p ∷ probes) (now ∷ later) =
    restored pattern p now ∷ restored_all pattern probes later

drop_scope-nil : (saved : List Saved) → drop_scope saved [] ≡ []
unfolding drop_scope
drop_scope-nil [] = refl
drop_scope-nil (s ∷ saved) = drop_scope-nil saved

drop_scope-shift :
    (i : ℕ) (pattern : Text) (probes : List Probe) (q : Probe) (later : List Probe)
    → drop_scope (save_from (suc i) pattern probes) (q ∷ later)
      ≡ q ∷ drop_scope (save_from i pattern probes) later
unfolding save_from drop_scope
drop_scope-shift i pattern [] q later = refl
drop_scope-shift i pattern (p ∷ probes) q later = elim (Bool-cases (glob_match pattern p.path)) [
  | inl hit ↦
      rw
        (
          hit,
          drop_scope-shift (suc i) pattern probes q
              (restore_at i (enabled p) (capture_stack p) later),
        )
        refl
  | inr miss ↦ rw (miss, drop_scope-shift (suc i) pattern probes q later) refl
]

pub drop_scope-save_from :
    (pattern : Text) (probes later : List Probe)
    → drop_scope (save_from 0 pattern probes) later ≡ restored_all pattern probes later
unfolding save_from drop_scope
drop_scope-save_from pattern [] later = refl
drop_scope-save_from pattern (p ∷ probes) [] = drop_scope-nil (save_from 0 pattern (p ∷ probes))
drop_scope-save_from pattern (p ∷ probes) (now ∷ later) =
    elim (Bool-cases (glob_match pattern p.path)) [
      | inl hit ↦
          rw
            (
              hit,
              drop_scope-shift 0 pattern probes (set_flags (enabled p) (capture_stack p) now) later,
              drop_scope-save_from pattern probes later,
            )
            refl
      | inr miss ↦
          rw
            (
              miss,
              drop_scope-shift 0 pattern probes now later,
              drop_scope-save_from pattern probes later,
            )
            refl
    ]

-- The same registry at a later time: the probes are those it had, and their flags are bytes.
abbrev pub Later : List Probe → List Probe → Type 0
Later [] [] = Unit
Later (p ∷ ps) (q ∷ qs) = (q.path ≡ p.path) × Byte q × Later ps qs
Later [] (q ∷ qs) = ⊥
Later (p ∷ ps) [] = ⊥

-- A matching probe has the flags of before, every other one those of later.
abbrev pub AllRestored : Text → List Probe → List Probe → List Probe → Type 0
AllRestored pattern (p ∷ ps) (q ∷ qs) (r ∷ rs) =
    (enabled r ≡ (if glob_match pattern p.path then enabled p else enabled q))
    × (capture_stack r ≡ (if glob_match pattern p.path then capture_stack p else capture_stack q))
    × AllRestored pattern ps qs rs
AllRestored pattern [] [] [] = Unit
AllRestored pattern ps qs rs = ⊥

-- A matching probe is on and captures stacks as asked for, every other one is as it was.
abbrev pub AllOn : Text → Bool → List Probe → List Probe → Type 0
AllOn pattern capture [] [] = Unit
AllOn pattern capture (p ∷ ps) (q ∷ qs) =
    (enabled q ≡ (if glob_match pattern p.path then true else enabled p))
    × (capture_stack q ≡ (if glob_match pattern p.path then capture else capture_stack p))
    × AllOn pattern capture ps qs
AllOn pattern capture [] (q ∷ qs) = ⊥
AllOn pattern capture (p ∷ ps) [] = ⊥

turn_on-AllOn :
    (pattern : Text) (capture : Bool) (probes : List Probe)
    → All Byte probes
    → AllOn pattern capture probes (turn_on pattern capture probes)
unfolding turn_on
turn_on-AllOn pattern capture [] all = tt
turn_on-AllOn pattern capture (p ∷ probes) (byte, all) =
    let rest = turn_on-AllOn pattern capture probes all in
    elim (Bool-cases (glob_match pattern p.path)) [
      | inl hit ↦
          let (on, stack, b, path) = set_flags-flags true capture p byte in rw hit (on, stack, rest)
      | inr miss ↦ rw miss (refl, refl, rest)
    ]

restored_all-AllRestored :
    (pattern : Text) (probes later : List Probe)
    → Later probes later
    → AllRestored pattern probes later (restored_all pattern probes later)
restored_all-AllRestored pattern [] [] h = tt
restored_all-AllRestored pattern [] (q ∷ later) h = elim h [ ]
restored_all-AllRestored pattern (p ∷ probes) [] h = elim h [ ]
restored_all-AllRestored pattern (p ∷ probes) (q ∷ later) (path, byte, h) =
    let rest = restored_all-AllRestored pattern probes later h in
    elim (Bool-cases (glob_match pattern p.path)) [
      | inl hit ↦
          let (on, stack, b, same_path) = set_flags-flags (enabled p) (capture_stack p) q byte in
          rw hit (on, stack, rest)
      | inr miss ↦ rw miss (refl, refl, rest)
    ]

-- For probes with byte flags, entering a scope turns the matching probes on, with stacks as asked
-- for, and leaves all others as they were; dropping it later, whatever happened to the flags
-- meanwhile, gives every matching probe the two flags of before the scope, whether it was on and
-- whether it captured stacks, and leaves the flags of all others as they are by then.
pub drop_scope-enter :
    (pattern : Text) (capture : Bool) (probes later : List Probe)
    → All Byte probes
    → Later probes later
    → AllOn pattern capture probes (enter pattern capture probes).1
      × AllRestored pattern probes later (drop_scope (enter pattern capture probes).0 later)
unfolding enter
drop_scope-enter pattern capture probes later all h = (
  turn_on-AllOn pattern capture probes all,
  rw (drop_scope-save_from pattern probes later) (restored_all-AllRestored pattern probes later h),
)
