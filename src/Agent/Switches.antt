-- ===== src/Agent/Switches.antt =====
-- The arms of `dispatch_verb` of rthas/src/agent.rs that turn probes on and off or empty the buffer
-- of events, and what they print.
pub mod Selections
use rthas.Prelude.{ℕ, Bool, true, false, List, [], ◌∷◌, ◌++◌, if◌then◌else◌, Text, codes, is_empty}
use rthas.Prelude.{to_text}
use rthas.Event.Recorder.{Recorder}
use rthas.Event.Recorder
use rthas.Probe.{Probe}
use rthas.Probe.Registry.{set_enabled_matching, disable_all}
use rthas.Agent.Args.{Args, pattern}
use rthas.Agent.Access.{Command, turn_on, turn_off, reset, clear}

-- The registry and the recorder of the process.
pub record Shared : Type 0 where
  pub probes : List Probe
  pub events : Recorder

-- `{verb} {n} probe(s) matching '{pattern}'`.
abbrev pub counted : Text → Text → List Probe × ℕ → Text
counted verb pattern (probes, n) =
    verb ++ (codes " " ++ (to_text n ++ (codes " probe(s) matching '" ++ (pattern ++ codes "'"))))

unfoldable pub select : Text → Text → Bool → Shared → Shared × List Text
unfolding set_enabled_matching
select verb pattern on s =
    let changed = set_enabled_matching pattern on s.probes in
    (record s { probes = changed.0 }, counted verb pattern changed ∷ [])

unfoldable pub all_off : Shared → Shared × List Text
unfolding disable_all
all_off s = (record s { probes = disable_all s.probes }, codes "disabled all probes" ∷ [])

-- The other arms have handlers of their own.
unfoldable pub run_arm : Command → Args → Shared → Shared × List Text
unfolding select all_off Recorder.clear pattern
run_arm turn_on args s = select (codes "enabled") (pattern args) true s
run_arm turn_off args s =
    if is_empty (pattern args) then all_off s else select (codes "disabled") (pattern args) false s
run_arm reset args s = all_off s
run_arm clear args s =
    (record s { events = Recorder.clear s.events }, codes "cleared event buffer" ∷ [])
run_arm other args s = (s, [])
