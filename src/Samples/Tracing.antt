-- ===== src/Samples/Tracing.antt =====
-- Instances for the recorder, the time tunnel, spans and call trees.
use rthas.Prelude.{
  ℕ, ◌-◌, max, ◌≡◌, refl, true, ◌&&◌, none, some, List, [], ◌∷◌, arith, ◌==◌, if◌then◌else◌, length,
  drop, succ_u64, Text, codes,
}
use rthas.Event.{Event}
use rthas.Event.Recorder
use rthas.Event.Recorder.{Recorder, push_all, since, last_seq}
use rthas.Event.Recorder.Retention
use rthas.Event.Recorder.Retention.{stamp, IsValid, since-push_all, push_all-new}
use rthas.Tunnel
use rthas.Tunnel.{Tunnel, from_event, get, delete}
use rthas.Tunnel.Store
use rthas.Tunnel.Store.{Op, record_call, delete_index, clear_all, run-new-IsValid}
use rthas.Tunnel.Lookup.{heads, get-add}
use rthas.Probe
use rthas.Probe.{Probe, sync}
use rthas.Span.{State}
use rthas.Span.Calls.{Site, Calls, call, done, next, run, size, trees_of}
use rthas.Span.Calls.Effect.{after, run_lem}
use rthas.Span.Calls.Trace.{drain_roots-run}
use rthas.Tree.{Forest, with_grace}
use rthas.Tree.Take.{Trees, tree, nil, cons, take_tree, drain_roots}
use rthas.Tree.Take.Totality.{Leaves, take_tree-Leaves, drain_roots-Leaves}
use rthas.Tree.Adopt.{postorder, feed}
use rthas.Tree.Collect.{drain_roots-feed}

abbrev event : ℕ → ℕ → Event
event span parent = record {
  seq = 0;
  span = span;
  parent = parent;
  depth = 0;
  probe = 0;
  tid = 1;
  task = 7;
  start_ns = 0;
  dur_ns = 100;
  ok = true;
  args = [];
  ret = codes "Ok(1)";
  stack = none;
}

abbrev two_events : List Event
two_events = event 2 1 ∷ event 1 0 ∷ []

push_all-new_example :
    ((push_all two_events (Recorder.new 1)).buf ≡ drop (2 - max 1 1) (stamp 1 two_events))
    × ((push_all two_events (Recorder.new 1)).recorded ≡ 2)
    × ((push_all two_events (Recorder.new 1)).dropped ≡ 2 - max 1 1)
    × (last_seq (push_all two_events (Recorder.new 1)) ≡ 2)
push_all-new_example = push_all-new 1 two_events (omega arith)

one_kept : (push_all two_events (Recorder.new 1)).buf ≡ record (event 1 0) { seq = 2 } ∷ []
unfolding push_all Recorder.new succ_u64
one_kept = refl

since-push_all_example :
    since (last_seq (Recorder.new 1)) (push_all two_events (Recorder.new 1))
    ≡ drop (2 - (Recorder.new 1).capacity) (stamp (Recorder.new 1).next_seq two_events)
since-push_all_example =
    since-push_all two_events (Recorder.new 1) (Retention.new-IsValid 1)
      (unfold Recorder.new in omega arith)

abbrev ops : List Op
ops =
    record_call (event 2 1) (codes "a")
    ∷ record_call (event 1 0) (codes "b")
    ∷ delete_index 1000
    ∷ []

run-new-IsValid_example : Store.IsValid (Store.run ops (Tunnel.new 1))
run-new-IsValid_example = run-new-IsValid 1 ops (omega arith)

get-add_example : get 1000 (Tunnel.add (event 2 1) (codes "a") (Tunnel.new 8)).0 ≡ (
    if 1000 == (Tunnel.add (event 2 1) (codes "a") (Tunnel.new 8)).1
    then some (from_event 1000 (event 2 1) (codes "a"))
    else if (length (Tunnel.new 8).buf == (Tunnel.new 8).capacity) && heads 1000 (Tunnel.new 8).buf
    then none
    else get 1000 (Tunnel.new 8))
get-add_example = get-add (event 2 1) (codes "a") (Tunnel.new 8) 1000 (Store.new-IsValid 8)

abbrev full : Tunnel
full = Store.run ops (Tunnel.new 4)

abbrev probe_on : Probe
probe_on = record { path = codes "db::q"; file = []; line = 1; kind = sync; id = 3; flag = 1 }

abbrev site : Text → Site
site args = record {
  probe = probe_on;
  args = args;
  entered = 5;
  trace = [];
  outcome = some (codes "Ok(2)");
  left = 9;
  task = 7;
}

-- An outer call with two inner ones; the second inner one has its probe off and makes a call.
abbrev calls : Calls
calls =
    next
      (call (site (codes "a")) (
        next (call (site (codes "b")) done) (
          next
            (call (record (site (codes "c")) { probe = record probe_on { flag = 0 } })
              (next (call (record (site (codes "d")) { outcome = none }) done) done))
            done)))
      done

abbrev thread : State
thread = record { current = 0; depth = 0; tid = 1; next_span = 1; recorder = Recorder.new 64 }

abbrev clock : Event → ℕ × ℕ
clock e = (10, 11)

run_lem_example : run calls thread ≡ after 0 calls thread
run_lem_example =
    run_lem calls 0 thread (unfold Probe.enabled in omega arith)
      (unfold Probe.enabled in omega arith)

one_root : size calls ≡ 3
unfolding Probe.enabled
one_root = refl

abbrev shown : Trees
shown = trees_of calls 0 0 1 1 1

drain_roots-run_example :
    drain_roots
      (feed clock (since (last_seq thread.recorder) (run calls thread).recorder) (with_grace 5))
    ≡ some (
      trees_of calls 0 thread.depth thread.next_span thread.recorder.next_seq thread.tid,
      with_grace 5,
    )
drain_roots-run_example =
    drain_roots-run calls thread clock 10 5 refl (omega arith) (Retention.new-IsValid 64)
      (rw one_root (omega arith)) (rw one_root (unfold Recorder.new in omega arith))
      (rw one_root (omega arith)) (rw one_root (unfold Recorder.new in omega arith)) (omega arith)
      (λ e. omega arith) (λ e. omega arith)

abbrev pair : Trees
pair = cons (tree (event 1 0) (cons (tree (event 2 1) nil) nil)) nil

drain_roots-feed_example :
    drain_roots (feed clock (postorder pair) (with_grace 5)) ≡ some (pair, with_grace 5)
drain_roots-feed_example =
    drain_roots-feed clock 10 5 1 pair (omega arith) (λ e. omega arith) (λ e. omega arith)
      (omega arith) (omega arith)

take_tree-Leaves_example : Leaves 0 0 (take_tree 3 (with_grace 5))
unfolding with_grace
take_tree-Leaves_example = take_tree-Leaves 3 (with_grace 5)

drain_roots-Leaves_example : Leaves 2 0 (drain_roots (feed clock two_events (with_grace 5)))
unfolding feed rthas.Tree.add rthas.Tree.ingest rthas.Tree.adopt rthas.Tree.place
    rthas.Tree.promote_expired with_grace
drain_roots-Leaves_example = drain_roots-Leaves (feed clock two_events (with_grace 5))
