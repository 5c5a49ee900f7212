-- ===== src/Uprobes/Calls.antt =====
-- Calls on one thread, as rthas-ebpf/src/tree.rs sees them: with calls that are entered and never
-- return (a panic that is caught, a future that is dropped).
use rthas.Prelude.{
  ℕ, ◌-◌, ◌≡◌, refl, sym, ap, ap₂, ◌∙◌, ◌≢◌, true, false, List, [], ◌∷◌, ◌++◌, append_assoc, ◌==◌,
  ==_iff, ==_ne, All,
}
use rthas.Uprobes.{
  Node, node, Nodes, nil, cons, push_child, Frame, Forest, Completed, deliver, pop_frame, unwind,
  exit_stack,
}
use rthas.Uprobes.Threads.{
  Hit, enters, exits, list_of, run, run_stack, hits_of, stack_in, completed_by, run-thread,
}

-- What happens within a call: nothing more; a call that returns, and what follows it; or a call that
-- does not return, within which everything that follows takes place.
pub data Body : Type 0 where
  finished : Body
  next : ℕ → ℕ → Body → ℕ → Body → Body
  gone : ℕ → ℕ → Body → Body

abbrev pub hits_in : Body → List Hit
hits_in finished = []
hits_in (next id start inner end rest) =
    enters id start ∷ (hits_in inner ++ exits id end ∷ hits_in rest)
hits_in (gone id start inner) = enters id start ∷ hits_in inner

-- The trees of the calls that return.
abbrev pub nodes_in : Body → Nodes
nodes_in finished = nil
nodes_in (next id start inner end rest) =
    cons (node id (end - start) (nodes_in inner)) (nodes_in rest)
nodes_in (gone id start inner) = nil

-- The completed calls, callees first.
abbrev pub done_in : ℕ → Body → List Completed
done_in t finished = []
done_in t (next id start inner end rest) =
    done_in t inner
    ++ record { node = node id (end - start) (nodes_in inner); is_root = false; tid = t }
      ∷ done_in t rest
done_in t (gone id start inner) = done_in t inner

-- None of the calls left open within a call is one of its own function.
abbrev pub Apart : ℕ → Body → Type 0
Apart id finished = Unit
Apart id (next k start inner end rest) = Apart id rest
Apart id (gone k start inner) = (k ≢ id) × Apart id inner

abbrev pub Told : Body → Type 0
Told finished = Unit
Told (next id start inner end rest) = Apart id inner × Told inner × Told rest
Told (gone id start inner) = Told inner

-- The frames that are left behind.
abbrev junk : Body → List Frame
junk finished = []
junk (next id start inner end rest) = junk rest
junk (gone id start inner) =
    junk inner ++ record { id = id; start_ns = start; children = nodes_in inner } ∷ []

abbrev nodes_append : Nodes → Nodes → Nodes
nodes_append nil ns = ns
nodes_append (cons m ms) ns = cons m (nodes_append ms ns)

nodes_append-nil : (ms : Nodes) → nodes_append ms nil ≡ ms
nodes_append-nil nil = refl
nodes_append-nil (cons m ms) = ap (cons m) (nodes_append-nil ms)

nodes_append-push_child :
    (ms : Nodes) (n : Node) (ns : Nodes)
    → nodes_append (push_child ms n) ns ≡ nodes_append ms (cons n ns)
nodes_append-push_child nil n ns = refl
nodes_append-push_child (cons m ms) n ns = ap (cons m) (nodes_append-push_child ms n ns)

abbrev grown : Frame → Nodes → Frame
grown frame ns = record frame { children = nodes_append frame.children ns }

unwind-append :
    (id : ℕ) (body : Body) (stack : List Frame)
    → Apart id body
    → unwind id (junk body ++ stack) ≡ unwind id stack
unfolding unwind
unwind-append id finished stack h = refl
unwind-append id (next k start inner end rest) stack h = unwind-append id rest stack h
unwind-append id (gone k start inner) stack (ne, h) =
    let frame : Frame = record { id = k; start_ns = start; children = nodes_in inner } in
    ap (unwind id) (append_assoc (junk inner) (frame ∷ []) stack)
    ∙ unwind-append id inner (frame ∷ stack) h
    ∙ rw (==_ne k id ne)

top :
    (id : ℕ) (frame : Frame) (stack : List Frame)
    → (frame.id == id) ≡ true
    → unwind id (frame ∷ stack) ≡ frame ∷ stack
unfolding unwind
top id frame stack same = rw same

exit_stack-junk :
    (t id ts : ℕ) (body : Body) (frame : Frame) (stack : List Frame)
    → Apart id body
    → frame.id ≡ id
    → exit_stack t id ts (junk body ++ frame ∷ stack)
      ≡ deliver t (node id (ts - frame.start_ns) frame.children) stack
unfolding exit_stack unwind
exit_stack-junk t id ts body frame stack h e =
    let same : (frame.id == id) ≡ true = (==_iff frame.id id).1 e in
    ap (pop_frame t id ts) (unwind-append id body (frame ∷ stack) h ∙ top id frame stack same)
    ∙ rw same

-- A run in two parts.
run_stack-append :
    (t : ℕ) (a b : List Hit) (stack : List Frame)
    → run_stack t (a ++ b) stack ≡ (
      (run_stack t b (run_stack t a stack).0).0,
      (run_stack t a stack).1 ++ (run_stack t b (run_stack t a stack).0).1,
    )
run_stack-append t [] b stack = refl
run_stack-append t (enters id ts ∷ a) b stack =
    run_stack-append t a b (record { id = id; start_ns = ts; children = nil } ∷ stack)
run_stack-append t (exits id ts ∷ a) b stack =
    let (s1, done) = exit_stack t id ts stack in
    let r = run_stack t a s1 in
    ap (λ p. (p.0, list_of done ++ p.1)) (run_stack-append t a b s1)
    ∙ ap (λ xs. ((run_stack t b r.0).0, xs))
        (sym (append_assoc (list_of done) r.1 (run_stack t b r.0).1))

-- A run that is known, and then the exit of a call.
run-returning :
    (t id start end : ℕ) (inner : Body) (stack : List Frame)
    → Apart id inner
    → run_stack t (hits_in inner) (record { id = id; start_ns = start; children = nil } ∷ stack) ≡ (
      junk inner
          ++ grown (record { id = id; start_ns = start; children = nil }) (nodes_in inner) ∷ stack,
      done_in t inner,
    )
    → (hits : List Hit)
    → run_stack t
        (hits_in inner ++ exits id end ∷ hits)
        (record { id = id; start_ns = start; children = nil } ∷ stack)
      ≡ (let (s, r) = deliver t (node id (end - start) (nodes_in inner)) stack in
          ((run_stack t hits s).0, done_in t inner ++ (list_of r ++ (run_stack t hits s).1)))
run-returning t id start end inner stack apart ran hits =
    let frame : Frame = record { id = id; start_ns = start; children = nodes_in inner } in
    run_stack-append t (hits_in inner) (exits id end ∷ hits)
      (record { id = id; start_ns = start; children = nil } ∷ stack)
    ∙ rw (ran, exit_stack-junk t id end inner frame stack apart refl)

-- A body on the frame of the call it is in.
run-body :
    (t : ℕ) (body : Body) (frame : Frame) (stack : List Frame)
    → Told body
    → run_stack t (hits_in body) (frame ∷ stack)
      ≡ (junk body ++ grown frame (nodes_in body) ∷ stack, done_in t body)
run-body t finished frame stack told =
    ap (λ ns. (record frame { children = ns } ∷ stack, [])) (sym (nodes_append-nil frame.children))
run-body t (next id start inner end rest) frame stack (apart, told, later) =
    let n = node id (end - start) (nodes_in inner) in
    let parent : Frame = record frame { children = push_child frame.children n } in
    run-returning t id start end inner (frame ∷ stack) apart
      (run-body t inner (record { id = id; start_ns = start; children = nil }) (frame ∷ stack) told)
      (hits_in rest)
    ∙ rw (
      run-body t rest parent stack later,
      nodes_append-push_child frame.children n (nodes_in rest),
    )
run-body t (gone id start inner) frame stack told =
    let lost : Frame = record { id = id; start_ns = start; children = nodes_in inner } in
    run-body t inner (record { id = id; start_ns = start; children = nil }) (frame ∷ stack) told
    ∙ ap (λ s. (s, done_in t inner))
        (ap (λ ns. junk inner ++ lost ∷ record frame { children = ns } ∷ stack)
            (sym (nodes_append-nil frame.children))
          ∙ sym (append_assoc (junk inner) (lost ∷ []) (grown frame nil ∷ stack)))

-- The calls at a thread's top level that return, one after the other.
pub record Call : Type 0 where
  pub id : ℕ
  pub start : ℕ
  pub inner : Body
  pub end : ℕ

abbrev pub hits_of_calls : List Call → List Hit
hits_of_calls [] = []
hits_of_calls (c ∷ cs) =
    enters c.id c.start ∷ (hits_in c.inner ++ exits c.id c.end ∷ hits_of_calls cs)

abbrev pub done_by_calls : ℕ → List Call → List Completed
done_by_calls t [] = []
done_by_calls t (c ∷ cs) =
    done_in t c.inner
    ++ record { node = node c.id (c.end - c.start) (nodes_in c.inner); is_root = true; tid = t }
      ∷ done_by_calls t cs

abbrev pub AllTold : List Call → Type 0
AllTold cs = All (λ c. Apart c.id c.inner × Told c.inner) cs

run-calls :
    (t : ℕ) (cs : List Call)
    → AllTold cs
    → run_stack t (hits_of_calls cs) [] ≡ ([], done_by_calls t cs)
run-calls t [] told = refl
run-calls t (c ∷ cs) ((apart, told), later) =
    run-returning t c.id c.start c.end c.inner [] apart
      (run-body t c.inner (record { id = c.id; start_ns = c.start; children = nil }) [] told)
      (hits_of_calls cs)
    ∙ rw (run-calls t cs later)

-- However the events of the threads are interleaved, a thread with nothing open whose own events are
-- those of a sequence of calls, nested to any depth, completes exactly these calls, callees first and
-- in order, each with the time between its entry and its exit and the tree of the calls within it,
-- those at the top marked as roots, and ends with nothing open. Calls that never return are left out
-- with the tree that they would have had, and do no harm, as long as none of those left open within
-- a call is one of its own function.
pub run-calls_of_thread :
    (t : ℕ) (cs : List Call) (hits : List (ℕ × Hit)) (f : Forest)
    → hits_of t hits ≡ hits_of_calls cs
    → AllTold cs
    → stack_in t f.by_tid ≡ []
    → (completed_by t (run hits f).1 ≡ done_by_calls t cs) × (stack_in t (run hits f).0.by_tid ≡ [])
run-calls_of_thread t cs hits f own told empty =
    let (done, end) = run-thread t hits f in
    let alone : run_stack t (hits_of t hits) (stack_in t f.by_tid) ≡ ([], done_by_calls t cs) =
      ap₂ (λ hs s. run_stack t hs s) own empty ∙ run-calls t cs told in
    (done ∙ ap (λ p. p.1) alone, end ∙ ap (λ p. p.0) alone)
