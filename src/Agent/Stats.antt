-- ===== src/Agent/Stats.antt =====
-- `Agg` and `aggregate_events` of rthas/src/agent.rs, from which `stats`, `top` and `dashboard` take
-- their numbers: the `HashMap` of aggregates by probe. The order in which the rows are shown is not
-- part of it.
pub mod Sums
pub mod Totals
use rthas.Prelude.{
  ℕ, ◌+◌, ◌%◌, max, Bool, true, false, List, [], ◌∷◌, ◌++◌, if◌then◌else◌, u64_mod, succ_u64,
  upsert, Text,
}
use rthas.Event.{Event}
use rthas.Glob.{glob_match}
use rthas.Probe.{Probe}
use rthas.Probe.Registry.{path_of}

pub record Agg : Type 0 where
  pub count : ℕ
  pub errs : ℕ
  pub total_ns : ℕ
  pub max_ns : ℕ
  pub durs : List ℕ

-- What `or_insert` puts in.
abbrev pub empty_agg : Agg
empty_agg = record { count = 0; errs = 0; total_ns = 0; max_ns = 0; durs = [] }

-- `errs += u64::from(!ok)`.
abbrev pub add_err : Bool → ℕ → ℕ
add_err true n = n
add_err false n = (n + 1) % u64_mod

unfoldable pub tally : Event → Agg → Agg
unfolding succ_u64
tally e a = record a {
  count = succ_u64 a.count;
  errs = add_err e.ok a.errs;
  total_ns = (a.total_ns + e.dur_ns) % u64_mod;
  max_ns = max a.max_ns e.dur_ns;
  durs = a.durs ++ e.dur_ns ∷ [];
}

-- One round of the loop.
unfoldable pub count_event : Text → List Probe → Event → List (ℕ × Agg) → List (ℕ × Agg)
unfolding tally path_of glob_match
count_event pattern probes e by_probe =
    if glob_match pattern (path_of e.probe probes)
    then upsert e.probe (tally e) (tally e empty_agg) by_probe
    else by_probe

unfoldable pub aggregate_into : Text → List Probe → List Event → List (ℕ × Agg) → List (ℕ × Agg)
unfolding count_event
aggregate_into pattern probes [] by_probe = by_probe
aggregate_into pattern probes (e ∷ events) by_probe =
    aggregate_into pattern probes events (count_event pattern probes e by_probe)

unfoldable pub aggregate_events : List Event → Text → List Probe → List (ℕ × Agg)
unfolding aggregate_into
aggregate_events events pattern probes = aggregate_into pattern probes events []
