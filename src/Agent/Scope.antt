-- ===== src/Agent/Scope.antt =====
-- `ProbeScope` of rthas/src/agent.rs: probes kept on while a streaming command runs. A reference to
-- a probe is its place in the registry.
pub mod Restoring
pub mod Overlap
use rthas.Prelude.{ℕ, zero, suc, Bool, true, List, [], ◌∷◌, if◌then◌else◌, Text}
use rthas.Glob.{glob_match}
use rthas.Probe.{Probe, enabled, set_enabled, capture_stack, set_capture_stack}

-- Which probe, was it enabled, was it capturing stacks.
pub record Saved : Type 0 where
  pub probe_at : ℕ
  pub was_on : Bool
  pub was_capturing : Bool

-- `map` over the matching probes, from the place of the first one of the list on.
unfoldable pub save_from : ℕ → Text → List Probe → List Saved
unfolding glob_match enabled capture_stack
save_from i pattern [] = []
save_from i pattern (p ∷ probes) =
    let rest = save_from (suc i) pattern probes in
    if glob_match pattern p.path
    then record { probe_at = i; was_on = enabled p; was_capturing = capture_stack p } ∷ rest
    else rest

unfoldable pub set_flags : Bool → Bool → Probe → Probe
unfolding set_enabled set_capture_stack
set_flags on capture p = set_capture_stack capture (set_enabled on p)

-- The loop that turns the matching probes on.
unfoldable pub turn_on : Text → Bool → List Probe → List Probe
unfolding glob_match set_flags
turn_on pattern capture [] = []
turn_on pattern capture (p ∷ probes) =
    (if glob_match pattern p.path then set_flags true capture p else p)
    ∷ turn_on pattern capture probes

-- The scope, and the probes afterwards.
unfoldable pub enter : Text → Bool → List Probe → List Saved × List Probe
unfolding save_from turn_on
enter pattern capture probes = (save_from 0 pattern probes, turn_on pattern capture probes)

unfoldable pub restore_at : ℕ → Bool → Bool → List Probe → List Probe
unfolding set_flags
restore_at i on capture [] = []
restore_at zero on capture (p ∷ probes) = set_flags on capture p ∷ probes
restore_at (suc i) on capture (p ∷ probes) = p ∷ restore_at i on capture probes

-- `ProbeScope::drop`.
unfoldable pub drop_scope : List Saved → List Probe → List Probe
unfolding restore_at
drop_scope [] probes = probes
drop_scope (s ∷ saved) probes =
    drop_scope saved (restore_at s.probe_at s.was_on s.was_capturing probes)
