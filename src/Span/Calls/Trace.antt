-- ===== src/Span/Calls/Trace.antt =====
-- From the first instrumented call to the trees that `trace` shows: rthas/src/span.rs, event.rs
-- and tree.rs together.
use rthas.Prelude.{
  ℕ, suc, ◌+◌, ◌-◌, ◌≤◌, ◌<◌, ◌≡◌, refl, ap, ◌∙◌, inl, inr, some, List, [], ◌∷◌, ◌++◌, arith,
  Bool-cases, length, length-append, add-zero, u64_mod, u32_mod,
}
use rthas.Event.{Event}
use rthas.Event.Recorder.{since, last_seq}
use rthas.Event.Recorder.Retention.{stamp, IsValid, since-push_all}
use rthas.Probe.{enabled}
use rthas.Span.{State}
use rthas.Span.Calls.{Calls, call, done, next, run, size, event_at, append, trees_of}
use rthas.Span.Calls.Effect.{run_lem, postorder-append, count-append}
use rthas.Tree.{with_grace}
use rthas.Tree.Take.{Trees, tree, nil, cons, drain_roots}
use rthas.Tree.Adopt.{count, postorder, Numbered, feed}
use rthas.Tree.Collect.{drain_roots-feed}

Numbered-append :
    (p lo : ℕ) (ts us : Trees)
    → Numbered p lo ts
    → Numbered p (lo + count ts) us
    → Numbered p lo (append ts us)
Numbered-append p lo nil us a b = let e : lo + 0 ≡ lo = omega arith in rw e at b
Numbered-append p lo (cons (tree e kids) ts) us a b =
    let sum : lo + suc (count kids + count ts) ≡ lo + 1 + count kids + count ts = omega arith in
    (a.0, a.1, a.2, Numbered-append p (lo + 1 + count kids) ts us a.3 (rw sum at b))

count-trees_of : (cs : Calls) (p d n q tid : ℕ) → count (trees_of cs p d n q tid) ≡ size cs
count-trees_of done p d n q tid = refl
count-trees_of (next (call c kids) rest) p d n q tid = elim (Bool-cases (enabled c.probe)) [
  | inl on ↦ rw on (
      omega (
        arith,
        count-trees_of kids n (d + 1) (n + 1) q tid,
        count-trees_of rest p d (n + 1 + size kids) (q + size kids + 1) tid,
      ))
  | inr off ↦
      rw (off, count-append)
        (omega (
          arith,
          count-trees_of kids p d n q tid,
          count-trees_of rest p d (n + size kids) (q + size kids) tid,
        ))
]

Numbered-trees_of : (cs : Calls) (p d n q tid : ℕ) → Numbered p n (trees_of cs p d n q tid)
Numbered-trees_of done p d n q tid = tt
Numbered-trees_of (next (call c kids) rest) p d n q tid = elim (Bool-cases (enabled c.probe)) [
  | inl on ↦
      let kids_count = count-trees_of kids n (d + 1) (n + 1) q tid in
      rw (on, kids_count)
        (
          refl,
          refl,
          Numbered-trees_of kids n (d + 1) (n + 1) q tid,
          Numbered-trees_of rest p d (n + 1 + size kids) (q + size kids + 1) tid,
        )
  | inr off ↦
      let kids_count = count-trees_of kids p d n q tid in
      rw off (
        Numbered-append p n _ _ (Numbered-trees_of kids p d n q tid)
          (rw kids_count (Numbered-trees_of rest p d (n + size kids) (q + size kids) tid)))
]

length-postorder : (ts : Trees) → length (postorder ts) ≡ count ts
length-postorder nil = refl
length-postorder (cons (tree e kids) ts) = omega (
  arith,
  length-append (postorder kids) (e ∷ postorder ts),
  length-postorder kids,
  length-postorder ts,
)

stamp-append :
    (q : ℕ) (es es' : List Event) → stamp q (es ++ es') ≡ stamp q es ++ stamp (q + length es) es'
stamp-append q [] es' = rw add-zero
stamp-append q (e ∷ es) es' =
    let sum : q + suc (length es) ≡ q + 1 + length es = omega arith in
    rw (stamp-append (q + 1) es es', sum)

-- The sequence numbers of `trees_of` are those that the recorder gives.
stamp-trees_of :
    (cs : Calls) (p d n q tid : ℕ)
    → stamp q (postorder (trees_of cs p d n q tid)) ≡ postorder (trees_of cs p d n q tid)
stamp-trees_of done p d n q tid = refl
stamp-trees_of (next (call c kids) rest) p d n q tid = elim (Bool-cases (enabled c.probe)) [
  | inl on ↦
      let kids_out = trees_of kids n (d + 1) (n + 1) q tid in
      let rest_out = trees_of rest p d (n + 1 + size kids) (q + size kids + 1) tid in
      let e = event_at c p d n (q + size kids) tid in
      let len : length (postorder kids_out) ≡ size kids =
        length-postorder kids_out ∙ count-trees_of kids n (d + 1) (n + 1) q tid in
      rw on (
        stamp-append q (postorder kids_out) (e ∷ postorder rest_out)
        ∙ rw (
          len,
          stamp-trees_of kids n (d + 1) (n + 1) q tid,
          stamp-trees_of rest p d (n + 1 + size kids) (q + size kids + 1) tid,
        ))
  | inr off ↦
      let kids_out = trees_of kids p d n q tid in
      let rest_out = trees_of rest p d (n + size kids) (q + size kids) tid in
      let len : length (postorder kids_out) ≡ size kids =
        length-postorder kids_out ∙ count-trees_of kids p d n q tid in
      rw (off, postorder-append)
        (stamp-append q (postorder kids_out) (postorder rest_out)
          ∙ rw (
            len,
            stamp-trees_of kids p d n q tid,
            stamp-trees_of rest p d (n + size kids) (q + size kids) tid,
          ))
]

-- What a reader with a cursor sees of a run of calls: every event, in order of completion.
since-run :
    (cs : Calls) (s : State)
    → IsValid s.recorder
    → s.next_span + size cs < u64_mod
    → s.recorder.next_seq + size cs < u64_mod
    → s.depth + size cs < u32_mod
    → size cs ≤ s.recorder.capacity
    → since (last_seq s.recorder) (run cs s).recorder
      ≡ postorder (trees_of cs s.current s.depth s.next_span s.recorder.next_seq s.tid)
since-run cs s v spans seqs depths fits =
    let q = s.recorder.next_seq in
    let es = postorder (trees_of cs s.current s.depth s.next_span q s.tid) in
    let len : length es ≡ size cs =
      length-postorder (trees_of cs s.current s.depth s.next_span q s.tid)
      ∙ count-trees_of cs s.current s.depth s.next_span q s.tid in
    let all_kept : length es - s.recorder.capacity ≡ 0 = omega arith in
    ap (λ (t : State). since (last_seq s.recorder) t.recorder) (run_lem cs q s spans depths)
    ∙ since-push_all es s.recorder v (omega arith)
    ∙ rw all_kept (stamp-trees_of cs s.current s.depth s.next_span q s.tid)

-- Whatever instrumented calls a thread makes at its top level, nested to any depth, returning or
-- leaving early, with any of the probes on: if the recorder has room for their events and no
-- counter wraps, a tracer that reads the recorder from its cursor and feeds the events to a new
-- forest, within one grace window, gets exactly the trees of those calls whose probes are on, each
-- with its own arguments, return value and duration, and the forest ends empty.
pub drain_roots-run :
    (cs : Calls) (s : State) (clock : Event → ℕ × ℕ) (t0 grace : ℕ)
    → s.current ≡ 0
    → 0 < s.next_span
    → IsValid s.recorder
    → s.next_span + size cs < u64_mod
    → s.recorder.next_seq + size cs < u64_mod
    → s.depth + size cs < u32_mod
    → size cs ≤ s.recorder.capacity
    → 0 < grace
    → ((e : Event) → t0 ≤ (clock e).1)
    → ((e : Event) → (clock e).0 < t0 + grace)
    → drain_roots (feed clock (since (last_seq s.recorder) (run cs s).recorder) (with_grace grace))
      ≡ some (trees_of cs 0 s.depth s.next_span s.recorder.next_seq s.tid, with_grace grace)
drain_roots-run cs s clock t0 grace top pos v spans seqs depths fits some_grace late soon =
    let q = s.recorder.next_seq in
    ap (λ es. drain_roots (feed clock es (with_grace grace)))
      (since-run cs s v spans seqs depths fits
        ∙ ap (λ p. postorder (trees_of cs p s.depth s.next_span q s.tid)) top)
    ∙ drain_roots-feed clock t0 grace s.next_span (trees_of cs 0 s.depth s.next_span q s.tid)
        some_grace late soon pos (Numbered-trees_of cs 0 s.depth s.next_span q s.tid)
