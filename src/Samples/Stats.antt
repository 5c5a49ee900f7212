-- ===== src/Samples/Stats.antt =====
-- Instances for the aggregates.
use rthas.Prelude.{
  ℕ, Bool, ◌≡◌, refl, true, false, none, List, [], ◌∷◌, lookup, succ_u64, codes, split,
  contains_char, starts_with, strip_prefix, after_first, ends_with, contains,
}
use rthas.Event.{Event}
use rthas.Glob.{glob_match}
use rthas.Probe.Registry.{path_of}
use rthas.Samples.Agent.{quiet}
use rthas.Agent.Stats.{tally, aggregate_events}
use rthas.Agent.Stats.Totals.{chosen, row_of, Once, aggregate_events-sums}

abbrev call : ℕ → ℕ → ℕ → Bool → Event
call seq probe dur_ns ok = record {
  seq = seq;
  span = seq;
  parent = 0;
  depth = 0;
  probe = probe;
  tid = 1;
  task = 0;
  start_ns = seq;
  dur_ns = dur_ns;
  ok = ok;
  args = [];
  ret = [];
  stack = none;
}

-- Two probes with events in turn, and an event of a probe that is not registered.
abbrev calls : List Event
calls = call 1 0 5 true ∷ call 2 1 7 true ∷ call 3 0 9 false ∷ call 4 9 1 true ∷ []

aggregate_events-sums_example :
    Once (aggregate_events calls (codes "run") quiet)
    × (lookup 0 (aggregate_events calls (codes "run") quiet)
        ≡ row_of (chosen (codes "run") quiet 0 calls))
aggregate_events-sums_example = aggregate_events-sums calls (codes "run") quiet 0

rows_test :
    aggregate_events calls (codes "run") quiet
    ≡ (0, record { count = 2; errs = 1; total_ns = 14; max_ns = 9; durs = 5 ∷ 9 ∷ [] }) ∷ []
unfolding aggregate_events tally path_of glob_match split contains_char starts_with strip_prefix
    after_first ends_with contains succ_u64
rows_test = refl
