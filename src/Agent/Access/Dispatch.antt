-- ===== src/Agent/Access/Dispatch.antt =====
-- The dispatch of rthas/src/agent.rs: which command a line runs, where its output goes, and whether
-- the client may run it. `Io` and `Pipeline` are those of the pipes.
use rthas.Prelude.{
  ℕ, inl, inr, Bool, true, false, not, ◌&&◌, none, some, List, [], ◌∷◌, ◌++◌, if◌then◌else◌,
  get_elem?, Text, codes, text_eq, is_empty,
}
use rthas.Prelude.{trim, to_text}
use rthas.Pipe.{split_pipeline, first_word}
use rthas.Pipe.Stage.{Io}
use rthas.Pipe.Stage
use rthas.Pipe.Tee.{parse_tee}
use rthas.Jobs.{JobSpec, Table, parse_job_line, cannot_background, submit, finish}
use rthas.History.{record_line}
use rthas.Agent.Args.{Args, or_empty}
use rthas.Agent.Args
use rthas.Agent.Access.{
  Command, auth, Env, command_of, keeps_open, auth_free, password_configured, cmd_auth,
}

-- What happens, in order: a line to the client, a file opened for writing, a handler run.
pub data Effect : Type 0 where
  says : Text → Effect
  opens : Text → Bool → Effect
  runs : Command → Args → Effect

pub record Outcome : Type 0 where
  pub keep_open : Bool
  pub authed : Bool
  pub jobs : Table
  pub effects : List Effect

-- `auth` is the only handler that gets `authed` to write to.
abbrev pub authed_after : Env → Args → Command → Bool → Bool
authed_after env args auth authed = cmd_auth env args
authed_after env args other authed = authed

unfoldable pub dispatch_verb : Env → Text → Bool → Table → Outcome
unfolding Args.parse command_of cmd_auth
dispatch_verb env line authed jobs =
    let args = Args.parse line in
    let command = command_of (or_empty (get_elem? args.pos 0)) in
    record {
      keep_open = keeps_open command;
      authed = authed_after env args command authed;
      jobs = jobs;
      effects = runs command args ∷ [];
    }

abbrev pub answer : Text → Bool → Table → Outcome
answer line authed jobs = record {
  keep_open = true;
  authed = authed;
  jobs = jobs;
  effects = says line ∷ [];
}

-- Effects in front of those of an outcome, and behind them.
abbrev pub preceded : List Effect → Outcome → Outcome
preceded before o = record o { effects = before ++ o.effects }

abbrev pub followed : Outcome → List Effect → Outcome
followed o after = record o { effects = o.effects ++ after }

module _ {File Sink : Type 0} (io : Io File Sink) (sink : Sink) (env : Env) where
  -- The file that a stage opens.
  abbrev pub stage_opens : Text → List Effect
  stage_opens spec =
      if text_eq (first_word spec) (codes "tee")
      then elim (parse_tee spec) [ inl e ↦ [] | inr (path, append) ↦ opens path append ∷ [] ]
      else []

  -- The files that the stages open, as far as `Pipeline::new` comes.
  unfoldable pub pipeline_opens : List Text → List Effect
  unfolding Stage.parse
  pipeline_opens [] = []
  pipeline_opens (spec ∷ specs) =
      stage_opens spec
      ++ (elim (Stage.parse io spec) [ inl e ↦ [] | inr stage ↦ pipeline_opens specs ])

  unfoldable pub dispatch_piped : Text → Bool → Table → Outcome
  unfolding split_pipeline pipeline_opens Stage.new dispatch_verb
  dispatch_piped line authed jobs =
      let (cmd, pipes) = split_pipeline line in
      if is_empty pipes then dispatch_verb env cmd authed jobs else elim (Stage.new io sink pipes) [
        | inl e ↦ preceded (pipeline_opens pipes) (answer e authed jobs)
        | inr pipeline ↦ preceded (pipeline_opens pipes) (dispatch_verb env cmd authed jobs)
      ]

  -- `own` is `log_path`, `now` the time. The job runs beside the commands to come; its effects stand
  -- here at its start, and it has a copy of `authed`.
  unfoldable pub spawn_background : (ℕ → Text) → ℕ → JobSpec → Bool → Table → Outcome
  unfolding submit finish dispatch_piped
  spawn_background own now spec authed jobs =
      let (jobs', id, log, append) = submit spec.cmd spec.redirect own now jobs in
      elim (io.open_file log append) [
        | inl e ↦ record {
          keep_open = true;
          authed = authed;
          jobs = finish id true jobs';
          effects =
              opens log append
              ∷ says (
                  codes "job "
                  ++ (to_text id ++ (codes ": could not open " ++ (log ++ (codes ": " ++ e)))))
              ∷ [];
        }
        | inr file ↦ record {
          keep_open = true;
          authed = authed;
          jobs = jobs';
          effects =
              opens log append ∷ (dispatch_piped spec.cmd authed jobs').effects
              ++ (says (codes "job id  : " ++ to_text id)
                  ∷ says (codes "log     : " ++ log)
                  ∷ says (codes "kill " ++ (to_text id ++ codes "  to stop; jobs to list"))
                  ∷ []);
        }
      ]

  unfoldable pub run_redirected : Text → Text → Bool → Bool → Table → Outcome
  unfolding dispatch_piped
  run_redirected cmd path append authed jobs = elim (io.open_file path append) [
    | inl e ↦
        preceded (opens path append ∷ [])
          (answer (codes "redirect " ++ (path ++ (codes ": " ++ e))) authed jobs)
    | inr file ↦
        preceded (opens path append ∷ [])
          (followed (dispatch_piped cmd authed jobs) (says (codes "wrote " ++ path) ∷ []))
  ]

  -- From the parsed line on.
  unfoldable pub dispatch_spec : (ℕ → Text) → ℕ → JobSpec → Bool → Table → Outcome
  unfolding parse_job_line first_word password_configured auth_free cannot_background
      spawn_background run_redirected dispatch_piped
  dispatch_spec own now spec authed jobs =
      let verb = first_word spec.cmd in
      if password_configured env && (not authed && not (auth_free verb))
      then answer (codes "command not permitted, try to use 'auth' command to authenticates.")
          authed jobs
      else if spec.background
      then (if cannot_background verb
          then answer (codes "cannot background '" ++ (verb ++ codes "'")) authed jobs
          else spawn_background own now spec authed jobs)
      else elim spec.redirect [
        | none ↦ dispatch_piped spec.cmd authed jobs
        | some (path, append) ↦ run_redirected spec.cmd path append authed jobs
      ]

  unfoldable pub dispatch : (ℕ → Text) → ℕ → Text → Bool → Table → Outcome
  unfolding parse_job_line dispatch_spec
  dispatch own now line authed jobs = dispatch_spec own now (parse_job_line line) authed jobs

  -- The loop of `handle_client` over the lines it reads, with the times at which they come: what
  -- happens, the history and the last state.
  unfoldable pub serve :
      (ℕ → Text) → List (ℕ × Text) → Bool → Table → List Text → List Effect × Bool × List Text
  unfolding dispatch record_line trim
  serve own [] authed jobs history = ([], authed, history)
  serve own ((now, line) ∷ lines) authed jobs history =
      let cmd = trim line in
      elim (is_empty cmd) [
        | true ↦ serve own lines authed jobs history
        | false ↦
            let o = dispatch own now cmd authed jobs in
            let known = record_line cmd history in
            elim o.keep_open [
              | true ↦
                  let (after, last, kept) = serve own lines o.authed o.jobs known in
                  (o.effects ++ after, last, kept)
              | false ↦ (o.effects, o.authed, known)
            ]
      ]

  unfoldable pub handle_client :
      (ℕ → Text) → List (ℕ × Text) → Table → List Text → List Effect × Bool × List Text
  unfolding serve password_configured
  handle_client own lines jobs history =
      serve own lines (not (password_configured env)) jobs history
