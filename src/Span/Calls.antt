-- ===== src/Span/Calls.antt =====
-- Instrumented calls on one thread (rthas/src/span.rs), and what they leave behind.
pub mod Effect
pub mod Trace
use rthas.Prelude.{ℕ, suc, ◌+◌, ◌-◌, Bool, false, not, Option, none, some, if◌then◌else◌, Text}
use rthas.Event.{Event}
use rthas.Probe.{Probe, enabled, capture_stack}
use rthas.Values.{early_return, looks_like_err}
use rthas.Span.{State, SpanGuard, begin, drop_guard, finish}
use rthas.Tree.Take.{Trees, tree, nil, cons}

-- One call of an instrumented function: what is read as it begins and as it ends. `outcome` is
-- the rendered return value, or `none` where the body is left early (`?`, `return`, a panic).
pub record Site : Type 0 where
  pub probe : Probe
  pub args : Text
  pub entered : ℕ
  pub trace : Text
  pub outcome : Option Text
  pub left : ℕ
  pub task : ℕ

mutual
  pub data Call : Type 0 where
    call : Site → Calls → Call

  -- Calls that one body makes, in order.
  pub data Calls : Type 0 where
    done : Calls
    next : Call → Calls → Calls

-- The guard of a call that ends, if its probe was on when it began.
unfoldable pub close : Site → Option Text → Option SpanGuard → State → State
close c outcome none s = s
close c none (some g) s = drop_guard g c.left c.task s
close c (some ret) (some g) s = finish g ret c.left c.task s

abbrev pub opened : Site → State → State × Option SpanGuard
opened c s = begin c.probe c.args c.entered c.trace s

unfoldable pub run : Calls → State → State
run done s = s
run (next (call c kids) rest) s =
    run rest (close c c.outcome (opened c s).1 (run kids (opened c s).0))

-- How many of the calls have their probe on.
abbrev pub size : Calls → ℕ
size done = 0
size (next (call c kids) rest) =
    if enabled c.probe then suc (size kids + size rest) else size kids + size rest

abbrev pub outcome_ret : Option Text → Text
outcome_ret none = early_return
outcome_ret (some ret) = ret

abbrev pub outcome_ok : Option Text → Bool
outcome_ok none = false
outcome_ok (some ret) = not (looks_like_err ret)

-- The event of a call: `p` is the enclosing span, `d` the depth, `n` its own span.
abbrev pub event_at : Site → ℕ → ℕ → ℕ → ℕ → ℕ → Event
event_at c p d n q tid = record {
  seq = q;
  span = n;
  parent = p;
  depth = d;
  probe = c.probe.id;
  tid = tid;
  task = c.task;
  start_ns = c.entered;
  dur_ns = c.left - c.entered;
  ok = outcome_ok c.outcome;
  args = c.args;
  ret = outcome_ret c.outcome;
  stack = if capture_stack c.probe then some c.trace else none;
}

abbrev pub append : Trees → Trees → Trees
append nil us = us
append (cons t ts) us = cons t (append ts us)

-- The trees of the calls whose probes are on; a call with its probe off leaves its children to
-- the call around it. `n` is the first span id and `q` the first sequence number that is free.
abbrev pub trees_of : Calls → ℕ → ℕ → ℕ → ℕ → ℕ → Trees
trees_of done p d n q tid = nil
trees_of (next (call c kids) rest) p d n q tid =
    let m = size kids in
    let traced =
      cons (tree (event_at c p d n (q + m) tid) (trees_of kids n (d + 1) (n + 1) q tid))
        (trees_of rest p d (n + 1 + m) (q + m + 1) tid) in
    let skipped = append (trees_of kids p d n q tid) (trees_of rest p d (n + m) (q + m) tid) in
    if enabled c.probe then traced else skipped
