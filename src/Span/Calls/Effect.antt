-- ===== src/Span/Calls/Effect.antt =====
-- What a run of instrumented calls does to the thread and to the recorder (rthas/src/span.rs).
use rthas.Prelude.{
  ℕ, suc, ◌+◌, ◌<◌, ◌≡◌, refl, sym, ap, ◌∙◌, inl, inr, true, false, Option, none, some, List, [],
  ◌∷◌, ◌++◌, append_assoc, arith, if◌then◌else◌, Bool-cases, add-zero, u64_mod, u32_mod,
  succ_u64-eq, succ_u32-eq, Text,
}
use rthas.Event.{Event}
use rthas.Event.Recorder.{Recorder, push, push_all}
use rthas.Probe.{enabled, capture_stack}
use rthas.Span.{State, SpanGuard, begin, event_of, emit, drop_guard, finish}
use rthas.Span.Calls.{
  Site, Calls, call, done, next, close, opened, run, size, event_at, append, trees_of,
}
use rthas.Tree.Take.{Trees, tree, nil, cons}
use rthas.Tree.Adopt.{count, postorder}

pub postorder-append : (ts us : Trees) → postorder (append ts us) ≡ postorder ts ++ postorder us
postorder-append nil us = refl
postorder-append (cons (tree e kids) ts) us =
    rw (postorder-append ts us)
      (sym (append_assoc (postorder kids) (e ∷ postorder ts) (postorder us)))

pub count-append : (ts us : Trees) → count (append ts us) ≡ count ts + count us
count-append nil us = omega arith
count-append (cons (tree e kids) ts) us = omega (arith, count-append ts us)

push_all-append :
    (es es' : List Event) (r : Recorder) → push_all (es ++ es') r ≡ push_all es' (push_all es r)
unfolding push_all
push_all-append [] es' r = refl
push_all-append (e ∷ es) es' r = push_all-append es es' (push e r)

-- The thread and the recorder after the calls: the locals are restored.
abbrev pub after : ℕ → Calls → State → State
after q cs s = record s {
  next_span = s.next_span + size cs;
  recorder = push_all (postorder (trees_of cs s.current s.depth s.next_span q s.tid)) s.recorder;
}

-- The state in which the body of a traced call runs.
abbrev inside : State → State
inside s = record s { current = s.next_span; depth = s.depth + 1; next_span = s.next_span + 1 }

opened-off : (c : Site) (s : State) → enabled c.probe ≡ false → opened c s ≡ (s, none)
unfolding begin
opened-off c s off = rw off

guard : Site → State → SpanGuard
guard c s = record {
  probe = c.probe;
  span = s.next_span;
  parent = s.current;
  depth = s.depth;
  start_ns = c.entered;
  args = c.args;
  stack = if capture_stack c.probe then some c.trace else none;
  finished = false;
}

opened-on :
    (c : Site) (s : State)
    → enabled c.probe ≡ true
    → s.next_span + 1 < u64_mod
    → s.depth + 1 < u32_mod
    → opened c s ≡ (inside s, some (guard c s))
unfolding begin guard
opened-on c s on a b = rw (on, succ_u64-eq s.next_span a, succ_u32-eq s.depth b)

-- Both ways to end a call push its event and restore what its guard remembers.
close-guard :
    (c : Site) (o : Option Text) (s t : State) (q : ℕ)
    → close c o (some (guard c s)) t ≡ record t {
      current = s.current;
      depth = s.depth;
      recorder =
          push
            (event_at (record c { outcome = o }) s.current s.depth s.next_span q t.tid)
            t.recorder;
    }
unfolding close guard drop_guard finish emit event_of push
close-guard c none s t q = refl
close-guard c (some r) s t q = refl

close-none : (c : Site) (o : Option Text) (t : State) → close c o none t ≡ t
unfolding close
close-none c none t = refl
close-none c (some r) t = refl

push_all-node :
    (xs ys : List Event) (e : Event) (r : Recorder)
    → push_all ys (push e (push_all xs r)) ≡ push_all (xs ++ e ∷ ys) r
unfolding push_all
push_all-node xs ys e r = sym (push_all-append xs (e ∷ ys) r)

-- One call, when what its body and the calls behind it do is known.
run-call :
    (c : Site) (kids rest : Calls) (s : State) (q : ℕ)
    → s.next_span + size (next (call c kids) rest) < u64_mod
    → s.depth + size (next (call c kids) rest) < u32_mod
    → ((q' : ℕ) (t : State)
        → t.next_span + size kids < u64_mod
        → t.depth + size kids < u32_mod
        → run kids t ≡ after q' kids t)
    → ((q' : ℕ) (t : State)
        → t.next_span + size rest < u64_mod
        → t.depth + size rest < u32_mod
        → run rest t ≡ after q' rest t)
    → run (next (call c kids) rest) s ≡ after q (next (call c kids) rest) s
unfolding run
run-call c kids rest s q spans depths ih_kids ih_rest = elim (Bool-cases (enabled c.probe)) [
  | inl on ↦
      let size_on : size (next (call c kids) rest) ≡ suc (size kids + size rest) = rw on in
      let m = size kids in
      let e = event_at c s.current s.depth s.next_span (q + m) s.tid in
      let body = after q kids (inside s) in
      let t : State = record body {
        current = s.current;
        depth = s.depth;
        recorder = push e body.recorder;
      } in
      rw (opened-on c s on (omega arith) (omega arith)) (
        ap (λ u. run rest (close c c.outcome (some (guard c s)) u))
          (ih_kids q (inside s) (omega arith) (omega arith))
        ∙ ap (run rest) (close-guard c c.outcome s body (q + m))
        ∙ ih_rest (q + m + 1) t (omega arith) (omega arith)
        ∙ (let sum : s.next_span + 1 + m + size rest ≡ s.next_span + suc (m + size rest) =
              omega arith in
            let pushed =
              push_all-node
                (postorder (trees_of kids s.next_span (s.depth + 1) (s.next_span + 1) q s.tid))
                (postorder
                  (trees_of rest s.current s.depth (s.next_span + 1 + m) (q + m + 1) s.tid))
                e s.recorder in
            rw on (λ i. record s { next_span = sum i; recorder = pushed i })))
  | inr off ↦
      let size_off : size (next (call c kids) rest) ≡ size kids + size rest = rw off in
      let m = size kids in
      rw (opened-off c s off) (
        ap (run rest)
          (close-none c c.outcome (run kids s) ∙ ih_kids q s (omega arith) (omega arith))
        ∙ ih_rest (q + m) (after q kids s) (omega arith) (omega arith)
        ∙ (let sum : s.next_span + m + size rest ≡ s.next_span + (m + size rest) = omega arith in
            let ts = trees_of kids s.current s.depth s.next_span q s.tid in
            let us = trees_of rest s.current s.depth (s.next_span + m) (q + m) s.tid in
            let pushed =
              sym (push_all-append (postorder ts) (postorder us) s.recorder)
              ∙ ap (λ es. push_all es s.recorder) (sym (postorder-append ts us)) in
            rw off (λ i. record s { next_span = sum i; recorder = pushed i })))
]

-- Calls on a thread, nested and one after another, traced or not, returning or leaving early,
-- leave `CURRENT` and `DEPTH` as they were, draw one span id for each traced call, and push one
-- event for each: when it ends, after those of the calls inside it, with the enclosing traced
-- call as its parent. The span counter must not reach 2^64 nor the depth 2^32. (`q` is free: the
-- recorder numbers the events itself.)
pub run_lem :
    (cs : Calls) (q : ℕ) (s : State)
    → s.next_span + size cs < u64_mod
    → s.depth + size cs < u32_mod
    → run cs s ≡ after q cs s
unfolding run push_all
run_lem done q s a b = λ i. record s { next_span = sym (add-zero s.next_span) i }
run_lem (next (call c kids) rest) q s a b =
    run-call c kids rest s q a b (run_lem kids) (run_lem rest)
