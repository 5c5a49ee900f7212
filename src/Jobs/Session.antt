-- ===== src/Jobs/Session.antt =====
-- The table of jobs of rthas/src/jobs.rs over a session.
use rthas.Prelude.{
  ℕ, ◌+◌, ◌<◌, ◌≡◌, refl, sym, ap, ap₂, subst, ◌∙◌, inl, inr, Bool, true, false, Option, List, [],
  ◌∷◌, ◌++◌, map, append-nil, append_assoc, arith, ◌==◌, if◌then◌else◌, ==_iff, Bool-cases, length,
  u32_mod, succ_u32-eq, Text,
}
use rthas.Jobs.{
  log_of, JobState, running, done, killed, Job, Table, change_job, submit, finish, kill,
}

-- A command goes to the background, ends, or is asked to stop.
pub data Op : Type 0 where
  submits : Text → Option (Text × Bool) → ℕ → Op
  finishes : ℕ → Bool → Op
  kills : ℕ → Op

module _ (own : ℕ → Text) where
  abbrev pub step : Op → Table → Table
  step (submits cmd redirect now) t = (submit cmd redirect own now t).0
  step (finishes id was_killed) t = finish id was_killed t
  step (kills id) t = (kill id t).0

  abbrev pub run : List Op → Table → Table
  run [] t = t
  run (op ∷ ops) t = run ops (step op t)

-- NEXT_ID starts at 1.
abbrev pub no_jobs : Table
no_jobs = record { next_id = 1; jobs = [] }

-- What a session did to the job with a number, by the later operations.
abbrev pub state_after : ℕ → List Op → JobState → JobState
state_after id [] s = s
state_after id (finishes k was_killed ∷ ops) s =
    state_after id ops (if id == k then (if was_killed then killed else done) else s)
state_after id (op ∷ ops) s = state_after id ops s

abbrev pub stop_after : ℕ → List Op → Bool → Bool
stop_after id [] b = b
stop_after id (kills k ∷ ops) b = stop_after id ops (if id == k then true else b)
stop_after id (op ∷ ops) b = stop_after id ops b

-- The jobs of the operations to come, numbered on from `id`, as they are in the end.
abbrev pub jobs_of : (ℕ → Text) → ℕ → List Op → List Job
jobs_of own id [] = []
jobs_of own id (submits cmd redirect now ∷ ops) =
    record {
      id = id;
      cmd = cmd;
      log = (log_of (own id) redirect).0;
      stop = stop_after id ops false;
      state = state_after id ops running;
      started = now;
    }
    ∷ jobs_of own (id + 1) ops
jobs_of own id (finishes k was_killed ∷ ops) = jobs_of own id ops
jobs_of own id (kills k ∷ ops) = jobs_of own id ops

-- A job, some operations later.
abbrev aged : List Op → Job → Job
aged ops j = record j { stop = stop_after j.id ops j.stop; state = state_after j.id ops j.state }

-- The jobs are numbered on from `n`, up to `m`.
abbrev Numbered : ℕ → List Job → ℕ → Type 0
Numbered n [] m = n ≡ m
Numbered n (j ∷ jobs) m = (j.id ≡ n) × Numbered (n + 1) jobs m

abbrev change_if : ℕ → (Job → Job) → Job → Job
change_if id change j = if j.id == id then change j else j

map-Later :
    (id n m : ℕ) (change : Job → Job) (jobs : List Job)
    → Numbered n jobs m
    → id < n
    → map (change_if id change) jobs ≡ jobs
map-Later id n m change [] h lt = refl
map-Later id n m change (j ∷ jobs) (e, h) lt =
    let other : (j.id == id) ≡ false = ground arith in
    rw other (ap (◌∷◌ j) (map-Later id (n + 1) m change jobs h (omega arith)))

change_job-map :
    (id n m : ℕ) (change : Job → Job) (jobs : List Job)
    → Numbered n jobs m
    → change_job id change jobs ≡ map (change_if id change) jobs
change_job-map id n m change [] h = refl
change_job-map id n m change (j ∷ jobs) (e, h) = elim (Bool-cases (j.id == id)) [
  | inl here ↦
      let same : j.id ≡ id = (==_iff j.id id).0 here in
      rw here (ap (◌∷◌ (change j)) (sym (map-Later id (n + 1) m change jobs h (omega arith))))
  | inr other ↦ rw other (ap (◌∷◌ j) (change_job-map id (n + 1) m change jobs h))
]

Numbered-map :
    (f : Job → Job) (n m : ℕ) (jobs : List Job)
    → ((j : Job) → (f j).id ≡ j.id)
    → Numbered n jobs m
    → Numbered n (map f jobs) m
Numbered-map f n m [] same h = h
Numbered-map f n m (j ∷ jobs) same (e, h) = (same j ∙ e, Numbered-map f (n + 1) m jobs same h)

Numbered-append :
    (n m : ℕ) (jobs : List Job) (j : Job)
    → j.id ≡ m
    → Numbered n jobs m
    → Numbered n (jobs ++ j ∷ []) (m + 1)
Numbered-append n m [] j e h = (e ∙ sym h, ap (λ k. k + 1) h)
Numbered-append n m (i ∷ jobs) j e (d, h) = (d, Numbered-append (n + 1) m jobs j e h)

map-map :
    (f g h : Job → Job) (jobs : List Job)
    → ((j : Job) → g (f j) ≡ h j)
    → map g (map f jobs) ≡ map h jobs
map-map f g h [] e = refl
map-map f g h (j ∷ jobs) e = ap₂ (λ x xs. x ∷ xs) (e j) (map-map f g h jobs e)

map-append : (f : Job → Job) (xs ys : List Job) → map f (xs ++ ys) ≡ map f xs ++ map f ys
map-append f [] ys = refl
map-append f (x ∷ xs) ys = ap (◌∷◌ (f x)) (map-append f xs ys)

map-aged_nil : (jobs : List Job) → map (aged []) jobs ≡ jobs
map-aged_nil [] = refl
map-aged_nil (j ∷ jobs) = ap (◌∷◌ j) (map-aged_nil jobs)

aged-finishes :
    (id : ℕ) (was_killed : Bool) (ops : List Op) (j : Job)
    → aged ops (change_if id (λ j. record j { state = if was_killed then killed else done }) j)
      ≡ aged (finishes id was_killed ∷ ops) j
aged-finishes id was_killed ops j = elim (Bool-cases (j.id == id)) [ inl h ↦ rw h | inr h ↦ rw h ]

aged-kills :
    (id : ℕ) (ops : List Op) (j : Job)
    → aged ops (change_if id (λ j. record j { stop = true }) j) ≡ aged (kills id ∷ ops) j
aged-kills id ops j = elim (Bool-cases (j.id == id)) [ inl h ↦ rw h | inr h ↦ rw h ]

-- A session from any table whose jobs are numbered from 1.
run-aged :
    (own : ℕ → Text) (ops : List Op) (t : Table)
    → Numbered 1 t.jobs t.next_id
    → t.next_id + length ops < u32_mod
    → (run own ops t).jobs ≡ map (aged ops) t.jobs ++ jobs_of own t.next_id ops
unfolding submit finish kill
run-aged own [] t h lt = sym (append-nil (map (aged []) t.jobs) ∙ map-aged_nil t.jobs)
run-aged own (submits cmd redirect now ∷ ops) t h lt =
    let job : Job = record {
      id = t.next_id;
      cmd = cmd;
      log = (log_of (own t.next_id) redirect).0;
      stop = false;
      state = running;
      started = now;
    } in
    let t' : Table = record { next_id = t.next_id + 1; jobs = t.jobs ++ job ∷ [] } in
    ap (λ k. (run own ops (record { next_id = k; jobs = t.jobs ++ job ∷ [] })).jobs)
      (succ_u32-eq t.next_id (omega arith))
    ∙ run-aged own ops t' (Numbered-append 1 t.next_id t.jobs job refl h) (omega arith)
    ∙ ap (λ js. js ++ jobs_of own (t.next_id + 1) ops) (map-append (aged ops) t.jobs (job ∷ []))
    ∙ append_assoc (map (aged ops) t.jobs) (aged ops job ∷ []) (jobs_of own (t.next_id + 1) ops)
run-aged own (finishes id was_killed ∷ ops) t h lt =
    let change : Job → Job = λ j. record j { state = if was_killed then killed else done } in
    let all = change_job-map id 1 t.next_id change t.jobs h in
    let numbered : Numbered 1 (change_job id change t.jobs) t.next_id =
      subst (λ js. Numbered 1 js t.next_id) (sym all)
        (Numbered-map (change_if id change) 1 t.next_id t.jobs (change-id) h) in
    run-aged own ops (finish id was_killed t) numbered (omega arith)
    ∙ ap (λ js. js ++ jobs_of own t.next_id ops)
        (ap (map (aged ops)) all
          ∙ map-map (change_if id change) (aged ops) (aged (finishes id was_killed ∷ ops)) t.jobs
              (aged-finishes id was_killed ops))
  where
    change-id :
        (j : Job)
        → (change_if id (λ j. record j { state = if was_killed then killed else done }) j).id ≡ j.id
    change-id j = elim (Bool-cases (j.id == id)) [ inl h ↦ rw h | inr h ↦ rw h ]
run-aged own (kills id ∷ ops) t h lt =
    let change : Job → Job = λ j. record j { stop = true } in
    let all = change_job-map id 1 t.next_id change t.jobs h in
    let numbered : Numbered 1 (change_job id change t.jobs) t.next_id =
      subst (λ js. Numbered 1 js t.next_id) (sym all)
        (Numbered-map (change_if id change) 1 t.next_id t.jobs (change-id) h) in
    run-aged own ops (kill id t).0 numbered (omega arith)
    ∙ ap (λ js. js ++ jobs_of own t.next_id ops)
        (ap (map (aged ops)) all
          ∙ map-map (change_if id change) (aged ops) (aged (kills id ∷ ops)) t.jobs
              (aged-kills id ops))
  where
    change-id : (j : Job) → (change_if id (λ j. record j { stop = true }) j).id ≡ j.id
    change-id j = elim (Bool-cases (j.id == id)) [ inl h ↦ rw h | inr h ↦ rw h ]

-- After any session of fewer than 2^32 - 1 operations the table holds the jobs that were submitted, in
-- order and numbered from 1, each with its command and its log; its stop flag is set where it was
-- killed after that, and its state is what was last reported of it, running where nothing was. No
-- operation touches a job with another number.
pub run-jobs_of :
    (own : ℕ → Text) (ops : List Op)
    → 1 + length ops < u32_mod
    → (run own ops no_jobs).jobs ≡ jobs_of own 1 ops
run-jobs_of own ops lt = run-aged own ops no_jobs refl lt
