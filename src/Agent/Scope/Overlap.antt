-- ===== src/Agent/Scope/Overlap.antt =====
-- Two scopes of probes that overlap, of rthas/src/agent.rs.
use rthas.Prelude.{◌≡◌, ◌∙◌, Bool, true, List, [], ◌∷◌, All, Text}
use rthas.Glob.{glob_match}
use rthas.Probe.{Probe, enabled, capture_stack}
use rthas.Probe.Registry.Selecting.{Byte}
use rthas.Agent.Scope.{set_flags, turn_on, enter, drop_scope}
use rthas.Agent.Scope.Restoring.{set_flags-flags, restored_all, drop_scope-save_from}

-- Two streaming commands at once: the first one to start is the first one to end.
abbrev pub overlapping : Text → Bool → Text → Bool → List Probe → List Probe
overlapping first capture second capture' probes =
    let (a, one) = enter first capture probes in
    let (b, two) = enter second capture' one in drop_scope b (drop_scope a two)

-- Those that both patterns match are on.
abbrev pub AllLeftOn : Text → Text → Bool → List Probe → List Probe → Type 0
AllLeftOn first second capture [] [] = Unit
AllLeftOn first second capture (p ∷ ps) (q ∷ qs) =
    (glob_match first p.path ≡ true
      → glob_match second p.path ≡ true
      → (enabled q ≡ true) × (capture_stack q ≡ capture))
    × AllLeftOn first second capture ps qs
AllLeftOn first second capture [] (q ∷ qs) = ⊥
AllLeftOn first second capture (p ∷ ps) [] = ⊥

overlapping_lem :
    (first : Text) (capture : Bool) (second : Text) (capture' : Bool) (probes : List Probe)
    → All Byte probes
    → AllLeftOn first second capture probes (
        restored_all second
          (turn_on first capture probes)
          (restored_all first probes (turn_on second capture' (turn_on first capture probes))))
unfolding turn_on
overlapping_lem first capture second capture' [] all = tt
overlapping_lem first capture second capture' (p ∷ probes) (byte, all) =
    let rest = overlapping_lem first capture second capture' probes all in
    (
      λ hit hit'.
          let p1 = set_flags true capture p in
          let p2 = set_flags true capture' p1 in
          let p3 = set_flags (enabled p) (capture_stack p) p2 in
          let (on1, stack1, byte1, path1) = set_flags-flags true capture p byte in
          let (on2, stack2, byte2, path2) = set_flags-flags true capture' p1 byte1 in
          let (on3, stack3, byte3, path3) =
            set_flags-flags (enabled p) (capture_stack p) p2 byte2 in
          let (on4, stack4, byte4, path4) =
            set_flags-flags (enabled p1) (capture_stack p1) p3 byte3 in
          let again : glob_match second p1.path ≡ true = rw path1 hit' in
          rw (hit, again) (on4 ∙ on1, stack4 ∙ stack1),
      rest,
    )

-- For probes with byte flags, where a second scope is entered within the first and the first is
-- dropped before it, every probe that both match is on in the end, and captures stacks if the first
-- scope asked for them, whether or not it was on before the two.
pub overlapping-AllLeftOn :
    (first : Text) (capture : Bool) (second : Text) (capture' : Bool) (probes : List Probe)
    → All Byte probes
    → AllLeftOn first second capture probes (overlapping first capture second capture' probes)
unfolding enter
overlapping-AllLeftOn first capture second capture' probes all =
    rw
      (
        drop_scope-save_from first probes (turn_on second capture' (turn_on first capture probes)),
        drop_scope-save_from second (turn_on first capture probes)
            (restored_all first probes (turn_on second capture' (turn_on first capture probes))),
      )
      (overlapping_lem first capture second capture' probes all)
