-- ===== src/Profiler/Session.antt =====
-- The session of rthas/src/profiler.rs. `start_kind` holds the lock of SESSION all the time,
-- `stop` only while it takes the session out: Profiler/Session/Machine goes through it step by
-- step. Whether pprof builds its guard and its report, and whether setting the timer succeeds, is
-- theirs to say, and so are the frames that a signal finds.
pub mod Machine
pub mod Ring
pub mod Outcome
use rthas.Prelude.{
  ℕ, zero, suc, succ_u64, ◌+◌, ◌%◌, min, max, Bool, true, false, ◌⊎◌, inl, inr, Option, none, some,
  List, [], ◌∷◌, ◌++◌, ◌==◌, if◌then◌else◌, take, Text, codes, text_eq, is_empty,
}

pub data EventKind : Type 0 where
  cpu : EventKind
  wall : EventKind

unfoldable pub parse_kind : Text → Text ⊎ EventKind
parse_kind name =
    if is_empty name
    then inr cpu
    else if text_eq name (codes "cpu")
    then inr cpu
    else if text_eq name (codes "wall")
    then inr wall
    else if text_eq name (codes "wall-clock")
    then inr wall
    else if text_eq name (codes "wallclock")
    then inr wall
    else inl
        (codes "unknown --event '" ++ (name ++ codes "'. try cpu or wall (alloc/lock need a JVM)"))

-- An `i32`: `n`, or `-(n + 1)`.
pub data Rate : Type 0 where
  pos : ℕ → Rate
  negsuc : ℕ → Rate

unfoldable pub clamp_hz : Rate → ℕ
clamp_hz (pos n) = min (max n 1) 1000
clamp_hz (negsuc n) = 1

-- A handler of SIGALRM: the profiler's, or one of the program.
pub data Handler : Type 0 where
  on_alarm : Handler
  foreign : ℕ → Handler

-- `guard`: whether the session holds one of pprof's.
pub record Running : Type 0 where
  pub kind : EventKind
  pub guard : Bool
  pub wall_prev : Option Handler
  pub started : ℕ
  pub hz : ℕ

abbrev pub wall_cap : ℕ
wall_cap = 4096

abbrev pub wall_depth : ℕ
wall_depth = 64

-- SESSION, WALL_ON, WALL_NEXT and WALL_SLOTS; and the handler of SIGALRM.
pub record Profiler : Type 0 where
  pub session : Option Running
  pub wall_on : Bool
  pub wall_next : ℕ
  pub wall_slots : ℕ → List ℕ
  pub handler : Handler

-- The error or the handler that was installed, and the state afterwards.
unfoldable pub wall_start : Bool → Profiler → (Text ⊎ Handler) × Profiler
wall_start timer_set p =
    let prev = p.handler in
    let installed : Profiler = record p { wall_next = 0; wall_on = true; handler = on_alarm } in
    if timer_set then (inr prev, installed) else (
      inl (codes "setitimer(ITIMER_REAL) failed"),
      record installed { wall_on = false; handler = prev },
    )

-- `wall_stop` in front of its sleep, and behind it.
unfoldable pub silence : Profiler → Profiler
silence p = record p { wall_on = false }

unfoldable pub restore_sigalrm : Handler → Profiler → Profiler
restore_sigalrm old p = record p { handler = old }

unfoldable pub wall_stop : Handler → Profiler → Profiler
unfolding silence restore_sigalrm
wall_stop prev p = restore_sigalrm prev (silence p)

abbrev pub already : Text
already = codes "profiler is already running; `profiler stop` first"

abbrev pub not_running : Text
not_running = codes "profiler is not running"

abbrev pub running_cpu : Rate → ℕ → Running
running_cpu hz now = record {
  kind = cpu;
  guard = true;
  wall_prev = none;
  started = now;
  hz = clamp_hz hz;
}

abbrev pub running_wall : Rate → Handler → ℕ → Running
running_wall hz prev now = record {
  kind = wall;
  guard = false;
  wall_prev = some prev;
  started = now;
  hz = clamp_hz hz;
}

-- `built` is what pprof answers, with its error.
unfoldable pub start_kind :
    Rate → EventKind → ℕ → Option Text → Bool → Profiler → Option Text × Profiler
unfolding wall_start clamp_hz
start_kind hz kind now built timer_set p = elim p.session [
  | some running ↦ (some already, p)
  | none ↦ elim kind [
    | cpu ↦ elim built [
      | some e ↦ (some (codes "failed to start profiler: " ++ e), p)
      | none ↦ (none, record p { session = some (running_cpu hz now) })
    ]
    | wall ↦
        let (armed, p') = wall_start timer_set p in
        elim armed [
          | inl e ↦ (some e, p')
          | inr prev ↦ (none, record p' { session = some (running_wall hz prev now) })
        ]
  ]
]

-- The slots that `wall_snapshot` reads, but for the empty ones.
abbrev pub filled : ℕ → (ℕ → List ℕ) → List (List ℕ)
filled zero slots = []
filled (suc n) slots =
    let before = filled n slots in if is_empty (slots n) then before else before ++ slots n ∷ []

unfoldable pub wall_samples : Profiler → List (List ℕ)
wall_samples p = filled (min p.wall_next wall_cap) p.wall_slots

-- What a session leaves: its kind, how long it ran, its rate, and for a wall session the samples.
pub record Left : Type 0 where
  pub event : EventKind
  pub elapsed : ℕ
  pub hz : ℕ
  pub wall_raw : List (List ℕ)

-- What `stop` does with the session that it took. `report` is what pprof answers, with its error.
unfoldable pub stop_taken : ℕ → Option Text → Running → Profiler → (Text ⊎ Left) × Profiler
unfolding wall_stop wall_samples
stop_taken elapsed report running p = elim running.kind [
  | cpu ↦
      if running.guard
      then elim report [
        | some e ↦ (inl (codes "profiler report: " ++ e), p)
        | none ↦
            (inr (record { event = cpu; elapsed = elapsed; hz = running.hz; wall_raw = [] }), p)
      ]
      else (inl not_running, p)
  | wall ↦
      let stopped : Profiler = elim running.wall_prev [ some prev ↦ wall_stop prev p | none ↦ p ] in
      (
        inr (record {
          event = wall;
          elapsed = elapsed;
          hz = running.hz;
          wall_raw = wall_samples stopped;
        }),
        stopped,
      )
]

-- A `stop` that runs by itself.
unfoldable pub stop : ℕ → Option Text → Profiler → (Text ⊎ Left) × Profiler
unfolding stop_taken
stop elapsed report p = elim p.session [
  | none ↦ (inl not_running, p)
  | some running ↦ stop_taken elapsed report running (record p { session = none })
]

abbrev pub set_slot : ℕ → List ℕ → (ℕ → List ℕ) → ℕ → List ℕ
set_slot i v slots = λ j. if j == i then v else slots j

-- The handler of the signal, for the instruction pointers that the backtrace gives.
unfoldable pub on_sigalrm : List ℕ → Profiler → Profiler
on_sigalrm frames p =
    if p.wall_on
    then record p {
      wall_next = succ_u64 p.wall_next;
      wall_slots = set_slot (p.wall_next % wall_cap) (take wall_depth frames) p.wall_slots;
    }
    else p
