-- ===== src/Jobs.antt =====
-- rthas/src/jobs.rs: background jobs of a session, and the command lines that ask for them.
pub mod Lines
pub mod Session
use rthas.Prelude.{
  ℕ, Bool, true, false, Option, none, some, List, [], ◌∷◌, ◌++◌, ◌==◌, any, if◌then◌else◌, succ_u32,
  Text, codes, text_eq, split_whitespace, join,
}

pub record JobSpec : Type 0 where
  pub cmd : Text
  pub redirect : Option (Text × Bool)
  pub background : Bool

-- The last item, and those in front of it.
abbrev pub cons_front {ℓ} : {A : Type ℓ} → A → Option (List A × A) → List A × A
cons_front x none = ([], x)
cons_front x (some (front, last)) = (x ∷ front, last)

abbrev pub unsnoc {ℓ} : {A : Type ℓ} → List A → Option (List A × A)
unsnoc [] = none
unsnoc (x ∷ xs) = some (cons_front x (unsnoc xs))

-- `if toks.last() == Some(&"&") { toks.pop(); background = true; }`.
unfoldable pub take_ampersand : List Text → List Text × Bool
take_ampersand toks = elim (unsnoc toks) [
  | none ↦ (toks, false)
  | some (front, last) ↦ if text_eq last (codes "&") then (front, true) else (toks, false)
]

-- The last two tokens, where they are a redirection.
unfoldable pub take_redirect : List Text → List Text × Option (Text × Bool)
take_redirect toks = elim (unsnoc toks) [
  | none ↦ (toks, none)
  | some (front, path) ↦ elim (unsnoc front) [
    | none ↦ (toks, none)
    | some (words, arrow) ↦
        if text_eq arrow (codes ">>")
        then (words, some (path, true))
        else if text_eq arrow (codes ">")
        then (words, some (path, false))
        else (toks, none)
  ]
]

unfoldable pub parse_job_line : Text → JobSpec
unfolding take_ampersand take_redirect
parse_job_line line =
    let (toks, background) = take_ampersand (split_whitespace line) in
    let (words, redirect) = take_redirect toks in
    record { cmd = join (b' ' ∷ []) words; redirect = redirect; background = background }

unfoldable pub cannot_background : Text → Bool
cannot_background verb = any (text_eq verb) (
    codes "jobs"
    ∷ codes "kill"
    ∷ codes "help"
    ∷ codes "?"
    ∷ codes "quit"
    ∷ codes "exit"
    ∷ codes "q"
    ∷ codes "stop"
    ∷ codes "auth"
    ∷ codes "fg"
    ∷ codes "bg"
    ∷ [])

pub data JobState : Type 0 where
  running : JobState
  done : JobState
  killed : JobState

pub record Job : Type 0 where
  pub id : ℕ
  pub cmd : Text
  pub log : Text
  pub stop : Bool
  pub state : JobState
  pub started : ℕ

-- NEXT_ID and TABLE.
pub record Table : Type 0 where
  pub next_id : ℕ
  pub jobs : List Job

abbrev pub log_of : Text → Option (Text × Bool) → Text × Bool
log_of own none = (own, false)
log_of own (some (path, append)) = (path, append)

-- `own` is `log_path` of the number that the job gets.
unfoldable pub submit :
    Text → Option (Text × Bool) → (ℕ → Text) → ℕ → Table → Table × ℕ × Text × Bool
submit cmd redirect own now t =
    let id = t.next_id in
    let (log, append) = log_of (own id) redirect in
    let job : Job = record {
      id = id;
      cmd = cmd;
      log = log;
      stop = false;
      state = running;
      started = now;
    } in
    (record { next_id = succ_u32 id; jobs = t.jobs ++ job ∷ [] }, id, log, append)

-- The first job with the number.
abbrev pub change_job : ℕ → (Job → Job) → List Job → List Job
change_job id change [] = []
change_job id change (job ∷ jobs) =
    if job.id == id then change job ∷ jobs else job ∷ change_job id change jobs

unfoldable pub finish : ℕ → Bool → Table → Table
finish id was_killed t = record t {
  jobs = change_job id (λ j. record j { state = if was_killed then killed else done }) t.jobs;
}

unfoldable pub kill : ℕ → Table → Table × Bool
kill id t = (
  record t { jobs = change_job id (λ j. record j { stop = true }) t.jobs },
  any (λ (j : Job). j.id == id) t.jobs,
)
