-- ===== src/Samples/Profiles.antt =====
-- Instances for the profiler.
use rthas.Prelude.{
  ℕ, ◌+◌, ◌%◌, u64_mod, arith, ◌≤◌, ◌<◌, min, ◌≡◌, refl, true, false, none, List, [], ◌∷◌, length,
  codes,
}
use rthas.Profiler.Session.{
  Rate, cpu, wall, foreign, Profiler, wall_cap, start_kind, wall_start, silence, restore_sigalrm,
  wall_samples,
}
use rthas.Profiler.Session.Machine.{
  World, proceed, advance, take_session, step, Op, start_op, take_op, proceed_op, signal_op, run,
}
use rthas.Profiler.Session.Machine.Orderly.{is_wall, Sound, run-Sound}
use rthas.Profiler.Session.Outcome.{Outcome, start_stop}
use rthas.Profiler.Session.Ring.{signals, kept, signals-newest}
use rthas.Profiler.Stacks.{Stacks}
use rthas.Profiler.CallTree.{count_of, self_count, tree_of}
use rthas.Profiler.CallTree.Counts.{node_at, begun, ended, tree_of-counts}

abbrev at_rest : Profiler
at_rest = record {
  session = none;
  wall_on = false;
  wall_next = 0;
  wall_slots = λ i. [];
  handler = foreign 7;
}

abbrev found : List (List ℕ)
found = (1 ∷ 2 ∷ []) ∷ (3 ∷ []) ∷ (1 ∷ []) ∷ []

abbrev wall_session : List Op
wall_session =
    start_op (Rate.pos 5000) wall 10 none true
    ∷ signal_op (1 ∷ 2 ∷ [])
    ∷ start_op (Rate.negsuc 3) cpu 11 none true
    ∷ take_op
    ∷ signal_op (3 ∷ [])
    ∷ proceed_op 0
    ∷ take_op
    ∷ proceed_op 0
    ∷ []

abbrev alone : World
alone = record { profiler = at_rest; stopping = [] }

run-Sound_example : Sound (foreign 7) (run wall_session alone)
unfolding step start_kind wall_start take_session advance proceed silence restore_sigalrm
run-Sound_example =
    run-Sound (foreign 7) wall_session alone (refl, refl, tt)
      (refl, (tt, (refl, (tt, (tt, (tt, (tt, (tt, tt))))))))

-- A start while a stop sleeps: its session is recorded, but the stop uninstalls its handler.
abbrev overtaken : List Op
overtaken =
    start_op (Rate.pos 99) wall 10 none true
    ∷ take_op
    ∷ proceed_op 0
    ∷ start_op (Rate.pos 99) wall 11 none true
    ∷ proceed_op 0
    ∷ []

race_test :
    (is_wall (run overtaken alone).profiler.session ≡ true)
    × ((run overtaken alone).profiler.handler ≡ foreign 7)
    × ((run overtaken alone).stopping ≡ [])
unfolding step start_kind wall_start take_session advance proceed silence restore_sigalrm
race_test = (refl, refl, refl)

start_stop_example :
    Outcome false wall 99 found 3 none at_rest (start_kind (Rate.pos 99) wall 1 none true at_rest)
start_stop_example = start_stop (Rate.pos 99) wall 1 none true found 3 none at_rest refl refl

signals-newest_example :
    (length (wall_samples (signals found (wall_start true at_rest).1))
      ≡ min (length found) wall_cap)
    × ((q : ℕ)
        → q < length found
        → length found ≤ q + wall_cap
        → (signals found (wall_start true at_rest).1).wall_slots (q % wall_cap) ≡ kept found q)
signals-newest_example = signals-newest found at_rest (omega arith) (refl, (refl, (refl, tt)))

abbrev folded : Stacks
folded =
    (codes "main" ∷ codes "run" ∷ [], 3)
    ∷ (codes "main" ∷ [], 2)
    ∷ (codes "main" ∷ codes "run" ∷ codes "read" ∷ [], 4)
    ∷ (codes "other" ∷ [], 1)
    ∷ []

tree_of-counts_example :
    (count_of (node_at (codes "main" ∷ codes "run" ∷ []) (tree_of folded))
      ≡ begun (codes "main" ∷ codes "run" ∷ []) folded % u64_mod)
    × (self_count (node_at (codes "main" ∷ codes "run" ∷ []) (tree_of folded))
        ≡ ended (codes "main" ∷ codes "run" ∷ []) folded % u64_mod)
tree_of-counts_example = tree_of-counts folded (codes "main" ∷ codes "run" ∷ [])

-- Seven samples begin with the path, three end with it.
begun_test : begun (codes "main" ∷ codes "run" ∷ []) folded ≡ 7
begun_test = refl
