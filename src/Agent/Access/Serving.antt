-- ===== src/Agent/Access/Serving.antt =====
-- What clients may run by one line, of rthas/src/agent.rs.
use rthas.Prelude.{
  ℕ, ◌≡◌, refl, subst, ◌⊎◌, inl, inr, Bool, true, false, Option, none, some, List, [], ◌∷◌, ◌++◌,
  Bool-cases, Text, codes, text_eq, is_empty,
}
use rthas.Pipe.{split_pipeline, first_word}
use rthas.Pipe.Stage.{Io}
use rthas.Pipe.Stage
use rthas.Pipe.Tee.{parse_tee}
use rthas.Jobs.{JobSpec, Table, parse_job_line, cannot_background, submit}
use rthas.Agent.Access.{Env, auth_free, password_configured}
use rthas.Agent.Access.Verbs.{first_word-lead, lead}
use rthas.Agent.Access.Guard.{
  Guarded-append, Admitted, auth_free-Admitted, Kept, dispatch_verb-split, Quiet, Quiet-append,
  preceded-Kept, followed-Kept,
}
use rthas.Agent.Access.Dispatch.{
  says, opens, dispatch_verb, answer, preceded, followed, stage_opens, pipeline_opens,
  dispatch_piped, spawn_background, run_redirected, dispatch_spec, dispatch,
}

pub opening {ℓ} :
    {F : Type ℓ} (r : Text ⊎ F) → ((e : Text) × (r ≡ inl e)) ⊎ ((file : F) × (r ≡ inr file))
opening (inl e) = inl (e, refl)
opening (inr file) = inr (file, refl)

module _ {File Sink : Type 0} (io : Io File Sink) (sink : Sink) (env : Env) where
  stage_opens-Quiet : (spec : Text) → Quiet (stage_opens io sink env spec)
  stage_opens-Quiet spec = elim (Bool-cases (text_eq (first_word spec) (codes "tee"))) [
    | inl tee ↦ rw tee (opened (parse_tee spec))
    | inr other ↦ rw other tt
  ]
    where
      opened :
          (r : Text ⊎ (Text × Bool))
          → Quiet (elim r [ inl e ↦ [] | inr (path, append) ↦ opens path append ∷ [] ])
      opened (inl e) = tt
      opened (inr (path, append)) = tt

  pipeline_opens-Quiet : (specs : List Text) → Quiet (pipeline_opens io sink env specs)
  unfolding pipeline_opens
  pipeline_opens-Quiet [] = tt
  pipeline_opens-Quiet (spec ∷ specs) =
      Quiet-append (stage_opens io sink env spec) _ (stage_opens-Quiet spec)
        (rest (Stage.parse io spec) (pipeline_opens-Quiet specs))
    where
      rest :
          (r : Text ⊎ Stage.Stage File)
          → Quiet (pipeline_opens io sink env specs)
          → Quiet (elim r [ inl e ↦ [] | inr stage ↦ pipeline_opens io sink env specs ])
      rest (inl e) quiet = tt
      rest (inr stage) quiet = quiet

  dispatch_piped-Kept :
      (line : Text) (jobs : Table)
      → Admitted (lead line)
      → Kept env (dispatch_piped io sink env line false jobs)
  unfolding dispatch_piped
  dispatch_piped-Kept line jobs admitted =
      let run = dispatch_verb-split env line jobs admitted in
      let pipes = (split_pipeline line).1 in
      elim (Bool-cases (is_empty pipes)) [
        | inl none_there ↦ rw none_there run
        | inr some_there ↦ rw some_there (through (Stage.new io sink pipes) run)
      ]
    where
      through :
          (r : Text ⊎ Stage.Pipeline File Sink)
          → Kept env (dispatch_verb env (split_pipeline line).0 false jobs)
          → Kept env (elim r [
            | inl e ↦
                preceded (pipeline_opens io sink env (split_pipeline line).1) (answer e false jobs)
            | inr pipeline ↦
                preceded
                  (pipeline_opens io sink env (split_pipeline line).1)
                  (dispatch_verb env (split_pipeline line).0 false jobs)
          ])
      through (inl e) run =
          preceded-Kept env (pipeline_opens io sink env (split_pipeline line).1)
            (answer e false jobs) (pipeline_opens-Quiet (split_pipeline line).1) (tt, inl refl)
      through (inr pipeline) run =
          preceded-Kept env (pipeline_opens io sink env (split_pipeline line).1)
            (dispatch_verb env (split_pipeline line).0 false jobs)
            (pipeline_opens-Quiet (split_pipeline line).1) run

  spawn_background-Kept :
      (own : ℕ → Text) (now : ℕ) (spec : JobSpec) (jobs : Table)
      → Admitted (lead spec.cmd)
      → Kept env (spawn_background io sink env own now spec false jobs)
  unfolding spawn_background
  spawn_background-Kept own now spec jobs admitted =
      let (jobs', id, log, append) = submit spec.cmd spec.redirect own now jobs in
      elim (opening (io.open_file log append)) [
        | inl (e, failed) ↦ rw (spawn_background, failed) (tt, inl refl)
        | inr (file, opened) ↦
            let (g, s) = dispatch_piped-Kept spec.cmd jobs' admitted in
            rw (spawn_background, opened)
              (
                Guarded-append env (dispatch_piped io sink env spec.cmd false jobs').effects _ g tt,
                inl refl,
              )
      ]

  run_redirected-Kept :
      (cmd path : Text) (append : Bool) (jobs : Table)
      → Admitted (lead cmd)
      → Kept env (run_redirected io sink env cmd path append false jobs)
  unfolding run_redirected
  run_redirected-Kept cmd path append jobs admitted =
      through (io.open_file path append) (dispatch_piped-Kept cmd jobs admitted)
    where
      through :
          (r : Text ⊎ File)
          → Kept env (dispatch_piped io sink env cmd false jobs)
          → Kept env (elim r [
            | inl e ↦
                preceded
                  (opens path append ∷ [])
                  (answer (codes "redirect " ++ (path ++ (codes ": " ++ e))) false jobs)
            | inr file ↦ preceded (opens path append ∷ []) (
                followed
                  (dispatch_piped io sink env cmd false jobs)
                  (says (codes "wrote " ++ path) ∷ []))
          ])
      through (inl e) kept = (tt, inl refl)
      through (inr file) kept =
          preceded-Kept env (opens path append ∷ [])
            (followed (dispatch_piped io sink env cmd false jobs)
              (says (codes "wrote " ++ path) ∷ []))
            tt
            (followed-Kept env (says (codes "wrote " ++ path) ∷ [])
              (dispatch_piped io sink env cmd false jobs) tt kept)

  pub dispatch-Kept :
      (own : ℕ → Text) (now : ℕ) (line : Text) (jobs : Table)
      → password_configured env ≡ true
      → Kept env (dispatch io sink env own now line false jobs)
  unfolding dispatch dispatch_spec
  dispatch-Kept own now line jobs set =
      let spec = parse_job_line line in
      let verb = first_word spec.cmd in
      elim (Bool-cases (auth_free verb)) [
        | inr refused ↦ rw (set, refused) (tt, inl refl)
        | inl free ↦
            let admitted : Admitted (lead spec.cmd) =
              subst Admitted (first_word-lead spec.cmd) (auth_free-Admitted verb free) in
            rw (set, free)
              (elim (Bool-cases spec.background) [
                | inl behind ↦ rw behind (elim (Bool-cases (cannot_background verb)) [
                  | inl cannot ↦ rw cannot (tt, inl refl)
                  | inr can ↦ rw can (spawn_background-Kept own now spec jobs admitted)
                ])
                | inr front ↦ rw front (to_sink spec spec.redirect admitted)
              ])
      ]
    where
      to_sink :
          (spec : JobSpec) (redirect : Option (Text × Bool))
          → Admitted (lead spec.cmd)
          → Kept env (elim redirect [
            | none ↦ dispatch_piped io sink env spec.cmd false jobs
            | some (path, append) ↦ run_redirected io sink env spec.cmd path append false jobs
          ])
      to_sink spec none admitted = dispatch_piped-Kept spec.cmd jobs admitted
      to_sink spec (some (path, append)) admitted =
          run_redirected-Kept spec.cmd path append jobs admitted
