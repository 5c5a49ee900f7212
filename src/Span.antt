-- ===== src/Span.antt =====
-- rthas/src/span.rs: the life of a span, and the thread-locals that link it to its parent.
pub mod Calls
use rthas.Prelude.{
  ℕ, ◌-◌, Bool, true, false, not, Option, none, some, if◌then◌else◌, succ_u64, succ_u32, Text,
}
use rthas.Event.{Event}
use rthas.Event.Recorder.{Recorder, push}
use rthas.Probe.{Probe, enabled, capture_stack}
use rthas.Values.{early_return, looks_like_err}

-- What a call of this module reads and writes: the thread-locals `CURRENT`, `DEPTH` and `TID` of
-- the calling thread, the counter `NEXT_SPAN` and the process's recorder.
pub record State : Type 0 where
  pub current : ℕ
  pub depth : ℕ
  pub tid : ℕ
  pub next_span : ℕ
  pub recorder : Recorder

pub record SpanGuard : Type 0 where
  pub probe : Probe
  pub span : ℕ
  pub parent : ℕ
  pub depth : ℕ
  pub start_ns : ℕ
  pub args : Text
  pub stack : Option Text
  pub finished : Bool

-- `now` is the reading of `now_ns()`, `args` what the closure renders, `trace` the text of the
-- backtrace that is captured if the probe asks for one.
unfoldable pub begin : Probe → Text → ℕ → Text → State → State × Option SpanGuard
begin probe args now trace s =
    if enabled probe
    then (
      record s {
        current = s.next_span;
        depth = succ_u32 s.depth;
        next_span = succ_u64 s.next_span;
      },
      some (record {
        probe = probe;
        span = s.next_span;
        parent = s.current;
        depth = s.depth;
        start_ns = now;
        args = args;
        stack = if capture_stack probe then some trace else none;
        finished = false;
      }),
    )
    else (s, none)

-- The event that `emit` pushes; `task` is the reading of `task_id()`.
unfoldable pub event_of : SpanGuard → Text → Bool → ℕ → ℕ → ℕ → Event
event_of g ret ok now task tid = record {
  seq = 0;
  span = g.span;
  parent = g.parent;
  depth = g.depth;
  probe = g.probe.id;
  tid = tid;
  task = task;
  start_ns = g.start_ns;
  dur_ns = now - g.start_ns;
  ok = ok;
  args = g.args;
  ret = ret;
  stack = g.stack;
}

unfoldable pub emit : SpanGuard → Text → Bool → ℕ → ℕ → State → State
unfolding event_of
emit g ret ok now task s = record s {
  recorder = push (event_of g ret ok now task s.tid) s.recorder;
}

-- `Drop`: an unfinished guard reports an early return; the enclosing span is current again.
unfoldable pub drop_guard : SpanGuard → ℕ → ℕ → State → State
unfolding emit
drop_guard g now task s =
    let s' = if g.finished then s else emit g early_return false now task s in
    record s' { current = g.parent; depth = g.depth }

-- `finish` takes the guard by value, so it is dropped when `finish` returns.
unfoldable pub finish : SpanGuard → Text → ℕ → ℕ → State → State
unfolding emit drop_guard
finish g ret now task s =
    drop_guard (record g { finished = true }) now task
      (emit g ret (not (looks_like_err ret)) now task s)
