-- ===== src/Probe/Registry.antt =====
-- `Registry` of rthas/src/probe.rs: every probe of the process, in the order of their ids.
pub mod Selecting
use rthas.Prelude.{
  ℕ, ◌+◌, Bool, true, false, not, none, some, List, [], ◌∷◌, map, if◌then◌else◌, get_elem?, Text,
  codes,
}
use rthas.Glob.{glob_match}
use rthas.Probe.{Probe, enabled, set_enabled}

unfoldable pub path_of : ℕ → List Probe → Text
path_of id probes = elim (get_elem? probes id) [ some p ↦ p.path | none ↦ codes "<unknown>" ]

-- `p.enabled() != on`.
abbrev pub differs : Bool → Bool → Bool
differs true on = not on
differs false on = on

-- The probes afterwards, and how many changed.
unfoldable pub set_enabled_matching : Text → Bool → List Probe → List Probe × ℕ
unfolding glob_match enabled set_enabled
set_enabled_matching pattern on [] = ([], 0)
set_enabled_matching pattern on (p ∷ probes) =
    let (rest, changed) = set_enabled_matching pattern on probes in
    if glob_match pattern p.path
    then (set_enabled on p ∷ rest, (if differs (enabled p) on then 1 + changed else changed))
    else (p ∷ rest, changed)

unfoldable pub disable_all : List Probe → List Probe
unfolding set_enabled
disable_all probes = map (set_enabled false) probes
