-- ===== src/Profiler/Session/Machine.antt =====
-- The profiler of rthas/src/profiler.rs with several connections: each stops in its own thread, and
-- only `take` of the session is under the lock. A start is one step, under the lock from end to end;
-- what a stop under way could do within it is left out, and Machine/Orderly asks that none is.
pub mod Orderly
use rthas.Prelude.{ℕ, zero, suc, Bool, Option, none, some, List, [], ◌∷◌, ◌++◌, Text}
use rthas.Profiler.Session.{
  EventKind, cpu, wall, Rate, Running, Profiler, silence, restore_sigalrm, start_kind, on_sigalrm,
}

-- How far a `stop` has come: it has taken the session, or has turned the samples off and sleeps.
pub data StopStage : Type 0 where
  taken : StopStage
  silenced : StopStage

pub record Stopping : Type 0 where
  pub stage : StopStage
  pub running : Running

-- The profiler, and the stops that are under way.
pub record World : Type 0 where
  pub profiler : Profiler
  pub stopping : List Stopping

-- The next step of a `stop`; the last one ends it. A report of pprof changes nothing here.
unfoldable pub proceed : Stopping → Profiler → List Stopping × Profiler
unfolding silence restore_sigalrm
proceed s p = elim s.running.kind [
  | cpu ↦ ([], p)
  | wall ↦ elim s.running.wall_prev [
    | none ↦ ([], p)
    | some prev ↦ elim s.stage [
      | taken ↦ (record s { stage = silenced } ∷ [], silence p)
      | silenced ↦ ([], restore_sigalrm prev p)
    ]
  ]
]

unfoldable pub advance : ℕ → List Stopping → Profiler → List Stopping × Profiler
unfolding proceed
advance i [] p = ([], p)
advance zero (s ∷ rest) p = let (s', p') = proceed s p in (s' ++ rest, p')
advance (suc i) (s ∷ rest) p = let (rest', p') = advance i rest p in (s ∷ rest', p')

-- What can happen next, with what pprof and the system answer: a start, a stop that takes the
-- session out, a step of the stop with a number, a signal.
pub data Op : Type 0 where
  start_op : Rate → EventKind → ℕ → Option Text → Bool → Op
  take_op : Op
  proceed_op : ℕ → Op
  signal_op : List ℕ → Op

unfoldable pub take_session : World → World
take_session w = elim w.profiler.session [
  | none ↦ w
  | some running ↦ record {
    profiler = record w.profiler { session = none };
    stopping = w.stopping ++ record { stage = taken; running = running } ∷ [];
  }
]

unfoldable pub step : Op → World → World
unfolding start_kind take_session advance on_sigalrm
step (start_op hz kind now built timer_set) w = record w {
  profiler = (start_kind hz kind now built timer_set w.profiler).1;
}
step take_op w = take_session w
step (proceed_op i) w =
    let (stopping', p') = advance i w.stopping w.profiler in
    record { profiler = p'; stopping = stopping' }
step (signal_op frames) w = record w { profiler = on_sigalrm frames w.profiler }

abbrev pub run : List Op → World → World
run [] w = w
run (op ∷ ops) w = run ops (step op w)
