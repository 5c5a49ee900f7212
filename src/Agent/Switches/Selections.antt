-- ===== src/Agent/Switches/Selections.antt =====
-- What the arms of rthas/src/agent.rs that select probes do to the registry.
use rthas.Prelude.{
  ◌≡◌, refl, ap, true, false, List, [], ◌∷◌, if◌then◌else◌, All, Text, codes, is_empty,
}
use rthas.Glob.{glob_match}
use rthas.Probe.{Probe, set_enabled}
use rthas.Probe.Registry.{set_enabled_matching, disable_all}
use rthas.Probe.Registry.Selecting.{Byte, AllSelected, set_enabled_matching-AllSelected}
use rthas.Agent.Args.{Args, pattern}
use rthas.Agent.Access.{Command, turn_on, turn_off, reset, clear}
use rthas.Agent.Switches.{Shared, select, all_off, run_arm}

disable_all-matching :
    (probes : List Probe) → disable_all probes ≡ (set_enabled_matching [] false probes).0
unfolding disable_all set_enabled_matching glob_match
disable_all-matching [] = refl
disable_all-matching (p ∷ probes) = ap (◌∷◌ (set_enabled false p)) (disable_all-matching probes)

disable_all-AllSelected :
    (probes : List Probe) → All Byte probes → AllSelected [] false probes (disable_all probes)
disable_all-AllSelected probes all =
    rw (disable_all-matching probes) (set_enabled_matching-AllSelected [] false probes all).0

-- Which probes a command asks to be on or off; an empty pattern stands for all.
abbrev Asked : Command → Args → List Probe → List Probe → Type 0
Asked turn_on args before after = AllSelected (pattern args) true before after
Asked turn_off args before after = AllSelected (pattern args) false before after
Asked reset args before after = AllSelected [] false before after
Asked other args before after = after ≡ before

-- For probes with byte flags, `on` and `off` turn exactly the probes that their pattern matches on
-- and off, all of them where there is none, `reset` turns all off, none of the three touches the
-- flag for stacks, and no other arm changes a probe.
run_arm-Asked :
    (c : Command) (args : Args) (s : Shared)
    → All Byte s.probes
    → Asked c args s.probes (run_arm c args s).0.probes
unfolding run_arm
run_arm-Asked turn_on args s all =
    (set_enabled_matching-AllSelected (pattern args) true s.probes all).0
run_arm-Asked turn_off args s all = off (pattern args)
  where
    off :
        (p : Text)
        → AllSelected p false s.probes
            (if is_empty p then all_off s else select (codes "disabled") p false s).0.probes
    off [] = disable_all-AllSelected s.probes all
    off (c ∷ p) = (set_enabled_matching-AllSelected (c ∷ p) false s.probes all).0
run_arm-Asked reset args s all = disable_all-AllSelected s.probes all
run_arm-Asked clear args s all = refl
run_arm-Asked other args s all = refl
