-- ===== src/Uprobes/Threads.antt =====
-- Threads do not see one another in rthas-ebpf/src/tree.rs.
use rthas.Prelude.{
  ℕ, ◌-◌, ◌≡◌, refl, sym, ap, ap₂, subst, ◌∙◌, ◌≢◌, inl, inr, false≢true, Option, none, some, List,
  [], ◌∷◌, ◌++◌, arith, ◌==◌, if◌then◌else◌, ==_iff, ==_refl, ==_ne, Bool-cases, Option-cases,
  filter, filter-append, lookup, upsert, update,
}
use rthas.Uprobes.{
  Node, Nodes, Frame, Forest, Completed, deliver, pop_frame, unwind, enter, exit, exit_stack,
}

-- What a uprobe reports.
pub data Hit : Type 0 where
  enters : ℕ → ℕ → Hit
  exits : ℕ → ℕ → Hit

abbrev pub list_of {ℓ} : {A : Type ℓ} → Option A → List A
list_of none = []
list_of (some a) = a ∷ []

abbrev pub step : ℕ → Hit → Forest → Forest × List Completed
step tid (enters id ts) f = (enter tid id ts f, [])
step tid (exits id ts) f = ((exit tid id ts f).0, list_of (exit tid id ts f).1)

-- The events of all threads, as they come, and the calls completed.
abbrev pub run : List (ℕ × Hit) → Forest → Forest × List Completed
run [] f = (f, [])
run ((tid, hit) ∷ hits) f =
    let (f1, done) = step tid hit f in let (f2, more) = run hits f1 in (f2, done ++ more)

-- One thread's stack alone.
abbrev pub step_stack : ℕ → Hit → List Frame → List Frame × List Completed
step_stack tid (enters id ts) stack =
    (record { id = id; start_ns = ts; children = Nodes.nil } ∷ stack, [])
step_stack tid (exits id ts) stack =
    ((exit_stack tid id ts stack).0, list_of (exit_stack tid id ts stack).1)

abbrev pub run_stack : ℕ → List Hit → List Frame → List Frame × List Completed
run_stack tid [] stack = (stack, [])
run_stack tid (hit ∷ hits) stack =
    let (s1, done) = step_stack tid hit stack in
    let (s2, more) = run_stack tid hits s1 in (s2, done ++ more)

abbrev pub hits_of : ℕ → List (ℕ × Hit) → List Hit
hits_of tid [] = []
hits_of tid ((t, hit) ∷ hits) = if t == tid then hit ∷ hits_of tid hits else hits_of tid hits

abbrev pub stack_in : ℕ → List (ℕ × List Frame) → List Frame
stack_in tid [] = []
stack_in tid ((t, stack) ∷ m) = if t == tid then stack else stack_in tid m

abbrev pub completed_by : ℕ → List Completed → List Completed
completed_by tid done = filter (λ c. c.tid == tid) done

stack_in-upsert :
    (t : ℕ) (frame : Frame) (m : List (ℕ × List Frame))
    → stack_in t (upsert t (λ s. frame ∷ s) (frame ∷ []) m) ≡ frame ∷ stack_in t m
stack_in-upsert t frame [] = ground arith
stack_in-upsert t frame ((j, s) ∷ m) = ground (arith, stack_in-upsert t frame m)

stack_in-upsert_ne :
    (t k : ℕ) (frame : Frame) (m : List (ℕ × List Frame))
    → k ≢ t
    → stack_in t (upsert k (λ s. frame ∷ s) (frame ∷ []) m) ≡ stack_in t m
stack_in-upsert_ne t k frame [] ne = ground arith
stack_in-upsert_ne t k frame ((j, s) ∷ m) ne = ground (arith, stack_in-upsert_ne t k frame m ne)

stack_in-some :
    (t : ℕ) (m : List (ℕ × List Frame)) {old : List Frame}
    → lookup t m ≡ some old
    → stack_in t m ≡ old
stack_in-some t [] h = cc
stack_in-some t ((j, s) ∷ m) {old} h = elim (Bool-cases (j == t)) [
  | inl here ↦ let e : some s ≡ some old = (rw here at h) in let same : s ≡ old = cc in rw here same
  | inr other ↦
      let later : lookup t m ≡ some old = (rw other at h) in rw other (stack_in-some t m later)
]

stack_in-update :
    (t : ℕ) (new : List Frame) (m : List (ℕ × List Frame)) {old : List Frame}
    → lookup t m ≡ some old
    → stack_in t (update t (λ s. new) m) ≡ new
stack_in-update t new [] h = cc
stack_in-update t new ((j, s) ∷ m) {old} h = elim (Bool-cases (j == t)) [
  | inl here ↦ rw here (rw here)
  | inr other ↦
      let later : lookup t m ≡ some old = (rw other at h) in
      rw other (rw other (stack_in-update t new m later))
]

stack_in-update_ne :
    (t k : ℕ) (new : List Frame) (m : List (ℕ × List Frame))
    → k ≢ t
    → stack_in t (update k (λ s. new) m) ≡ stack_in t m
stack_in-update_ne t k new [] ne = refl
stack_in-update_ne t k new ((j, s) ∷ m) ne = ground (arith, stack_in-update_ne t k new m ne)

stack_in-none : (t : ℕ) (m : List (ℕ × List Frame)) → lookup t m ≡ none → stack_in t m ≡ []
stack_in-none t [] h = refl
stack_in-none t ((j, s) ∷ m) h = elim (Bool-cases (j == t)) [
  | inl here ↦ let no : ◌≡◌ {A = Option (List Frame)} (some s) none = (rw here at h) in cc
  | inr other ↦
      let later : lookup t m ≡ none = (rw other at h) in rw other (stack_in-none t m later)
]

exit_stack-nil : (t id ts : ℕ) → exit_stack t id ts [] ≡ ([], none)
unfolding exit_stack unwind
exit_stack-nil t id ts = refl

-- What a thread completes carries its number.
deliver-tid :
    (k t : ℕ) (n : Node) (stack : List Frame)
    → k ≢ t
    → completed_by t (list_of (deliver k n stack).1) ≡ []
deliver-tid k t n [] ne = rw (==_ne k t ne)
deliver-tid k t n (parent ∷ stack) ne = rw (==_ne k t ne)

exit_stack-tid :
    (k t id ts : ℕ) (stack : List Frame)
    → k ≢ t
    → completed_by t (list_of (exit_stack k id ts stack).1) ≡ []
unfolding exit_stack
exit_stack-tid k t id ts stack ne = pop k t id ts (unwind id stack) ne
  where
    pop :
        (k t id ts : ℕ) (stack : List Frame)
        → k ≢ t
        → completed_by t (list_of (pop_frame k id ts stack).1) ≡ []
    pop k t id ts [] ne = refl
    pop k t id ts (frame ∷ stack) ne = elim (Bool-cases (frame.id == id)) [
      | inl here ↦
          rw here (deliver-tid k t (Node.node id (ts - frame.start_ns) frame.children) stack ne)
      | inr other ↦ rw other
    ]

deliver-own :
    (t : ℕ) (n : Node) (stack : List Frame)
    → completed_by t (list_of (deliver t n stack).1) ≡ list_of (deliver t n stack).1
deliver-own t n [] = rw (==_refl t)
deliver-own t n (parent ∷ stack) = rw (==_refl t)

pub step_stack-own :
    (t : ℕ) (hit : Hit) (stack : List Frame)
    → completed_by t (step_stack t hit stack).1 ≡ (step_stack t hit stack).1
unfolding exit_stack
step_stack-own t (enters id ts) stack = refl
step_stack-own t (exits id ts) stack = pop id ts (unwind id stack)
  where
    pop :
        (id ts : ℕ) (stack : List Frame)
        → completed_by t (list_of (pop_frame t id ts stack).1) ≡ list_of (pop_frame t id ts stack).1
    pop id ts [] = refl
    pop id ts (frame ∷ stack) = elim (Bool-cases (frame.id == id)) [
      | inl here ↦ rw here (deliver-own t (Node.node id (ts - frame.start_ns) frame.children) stack)
      | inr other ↦ rw other
    ]

exit-missing : (t id ts : ℕ) (f : Forest) → lookup t f.by_tid ≡ none → exit t id ts f ≡ (f, none)
unfolding exit
exit-missing t id ts f e = rw (e, exit)

exit-found :
    (t id ts : ℕ) (f : Forest) {stack : List Frame}
    → lookup t f.by_tid ≡ some stack
    → exit t id ts f ≡ (
      record f { by_tid = update t (λ s. (exit_stack t id ts stack).0) f.by_tid },
      (exit_stack t id ts stack).1,
    )
unfolding exit
exit-found t id ts f e = rw (e, exit)

-- A thread's own event, by its stack.
step-own :
    (t : ℕ) (hit : Hit) (f : Forest)
    → (stack_in t (step t hit f).0.by_tid ≡ (step_stack t hit (stack_in t f.by_tid)).0)
      × ((step t hit f).1 ≡ (step_stack t hit (stack_in t f.by_tid)).1)
unfolding enter
step-own t (enters id ts) f =
    (stack_in-upsert t (record { id = id; start_ns = ts; children = Nodes.nil }) f.by_tid, refl)
step-own t (exits id ts) f = elim (Option-cases (lookup t f.by_tid)) [
  | inl missing ↦
      let e = stack_in-none t f.by_tid missing in
      rw (exit-missing t id ts f missing, e, exit_stack-nil t id ts) (refl, refl)
  | inr (stack, found) ↦
      rw (exit-found t id ts f found, stack_in-some t f.by_tid found)
        (stack_in-update t (exit_stack t id ts stack).0 f.by_tid found, refl)
]

-- Another thread's event.
step-other :
    (t k : ℕ) (hit : Hit) (f : Forest)
    → k ≢ t
    → (stack_in t (step k hit f).0.by_tid ≡ stack_in t f.by_tid)
      × (completed_by t (step k hit f).1 ≡ [])
unfolding enter
step-other t k (enters id ts) f ne = (
  stack_in-upsert_ne t k (record { id = id; start_ns = ts; children = Nodes.nil }) f.by_tid ne,
  refl,
)
step-other t k (exits id ts) f ne = elim (Option-cases (lookup k f.by_tid)) [
  | inl missing ↦ rw (exit-missing k id ts f missing) (refl, refl)
  | inr (stack, found) ↦ rw (exit-found k id ts f found) (
    stack_in-update_ne t k (exit_stack k id ts stack).0 f.by_tid ne,
    exit_stack-tid k t id ts stack ne,
  )
]

-- A thread's own event in front of a run.
next-own :
    (t : ℕ) (hit : Hit) (hits : List (ℕ × Hit)) (f : Forest) (done : List Completed)
    (end : List Frame)
    → (completed_by t done ≡ (run_stack t (hits_of t hits) (stack_in t (step t hit f).0.by_tid)).1)
      × (end ≡ (run_stack t (hits_of t hits) (stack_in t (step t hit f).0.by_tid)).0)
    → (completed_by t ((step t hit f).1 ++ done)
        ≡ (run_stack t (hit ∷ hits_of t hits) (stack_in t f.by_tid)).1)
      × (end ≡ (run_stack t (hit ∷ hits_of t hits) (stack_in t f.by_tid)).0)
next-own t hit hits f done end (more, same) =
    let (stack, completed) = step-own t hit f in
    (
      filter-append (λ c. c.tid == t) (step t hit f).1 done
          ∙ ap₂ (λ xs ys. xs ++ ys)
              (ap (completed_by t) completed ∙ step_stack-own t hit (stack_in t f.by_tid))
              (more ∙ ap (λ s. (run_stack t (hits_of t hits) s).1) stack),
      same ∙ ap (λ s. (run_stack t (hits_of t hits) s).0) stack,
    )

-- What one thread completes among the others is what it completes alone, from its own events and its
-- own stack, and its stack ends as it does alone, however the events of the threads are interleaved.
pub run-thread :
    (t : ℕ) (hits : List (ℕ × Hit)) (f : Forest)
    → (completed_by t (run hits f).1 ≡ (run_stack t (hits_of t hits) (stack_in t f.by_tid)).1)
      × (stack_in t (run hits f).0.by_tid ≡ (run_stack t (hits_of t hits) (stack_in t f.by_tid)).0)
run-thread t [] f = (refl, refl)
run-thread t ((k, hit) ∷ hits) f =
    let f1 = (step k hit f).0 in
    let (more, end) = run-thread t hits f1 in
    elim (Bool-cases (k == t)) [
      | inl own ↦
          let e : k ≡ t = (==_iff k t).0 own in
          rw own (
            subst
              (λ j.
                (completed_by t (run hits (step j hit f).0).1
                    ≡ (run_stack t (hits_of t hits) (stack_in t (step j hit f).0.by_tid)).1)
                  × (stack_in t (run hits (step j hit f).0).0.by_tid
                      ≡ (run_stack t (hits_of t hits) (stack_in t (step j hit f).0.by_tid)).0)
                → (completed_by t ((step j hit f).1 ++ (run hits (step j hit f).0).1)
                    ≡ (run_stack t (hit ∷ hits_of t hits) (stack_in t f.by_tid)).1)
                  × (stack_in t (run hits (step j hit f).0).0.by_tid
                      ≡ (run_stack t (hit ∷ hits_of t hits) (stack_in t f.by_tid)).0))
              (sym e)
              (next-own t hit hits f (run hits (step t hit f).0).1
                (stack_in t (run hits (step t hit f).0).0.by_tid))
              (more, end))
      | inr other ↦
          let (same, nothing) =
            step-other t k hit f (λ e. false≢true (sym other ∙ rw e (==_refl t))) in
          rw other (
            filter-append (λ c. c.tid == t) (step k hit f).1 (run hits f1).1
                ∙ ap (λ xs. xs ++ completed_by t (run hits f1).1) nothing
                ∙ more
                ∙ ap (λ s. (run_stack t (hits_of t hits) s).1) same,
            end ∙ ap (λ s. (run_stack t (hits_of t hits) s).0) same,
          )
    ]
