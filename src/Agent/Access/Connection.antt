-- ===== src/Agent/Access/Connection.antt =====
-- What clients may do over a whole connection, of rthas/src/agent.rs.
use rthas.Prelude.{
  ℕ, ◌≡◌, refl, sym, ap, subst, ◌∙◌, ◌⊎◌, inl, inr, Bool, true, false, some, List, [], ◌∷◌, ◌++◌,
  Bool-cases, Text, codes, is_empty, is_whitespace,
}
use rthas.Prelude.{trim}
use rthas.Pipe.Stage.{Io}
use rthas.Jobs.{Table}
use rthas.Prelude.{join}
use rthas.Jobs.Lines.{Plain, redirect_words, ampersand, parse_job_line-join}
use rthas.History.{record_line}
use rthas.Agent.Access.{Env, password_configured}
use rthas.Agent.Access.Guard.{Guarded, Shows, Guarded-append, Guarded-append_Shows}
use rthas.Agent.Access.Dispatch.{
  Effect, says, opens, Outcome, dispatch_piped, run_redirected, dispatch_spec, dispatch, serve,
  handle_client,
}
use rthas.Agent.Access.Serving.{opening, dispatch-Kept}

help-Plain : Plain (codes "help")
unfolding is_whitespace
help-Plain = ((refl, (refl, (refl, (refl, (refl, tt))))), refl, refl, refl)

module _ {File Sink : Type 0} (io : Io File Sink) (sink : Sink) (env : Env) where
  serve-blank :
      (own : ℕ → Text) (now : ℕ) (line : Text) (lines : List (ℕ × Text)) (jobs : Table)
      (history : List Text)
      → is_empty (trim line) ≡ true
      → serve io sink env own ((now, line) ∷ lines) false jobs history
        ≡ serve io sink env own lines false jobs history
  unfolding serve
  serve-blank own now line lines jobs history h = rw (serve, h) refl

  serve-closed :
      (own : ℕ → Text) (now : ℕ) (line : Text) (lines : List (ℕ × Text)) (jobs : Table)
      (history : List Text)
      → is_empty (trim line) ≡ false
      → (dispatch io sink env own now (trim line) false jobs).keep_open ≡ false
      → (serve io sink env own ((now, line) ∷ lines) false jobs history).0
        ≡ (dispatch io sink env own now (trim line) false jobs).effects
  unfolding serve
  serve-closed own now line lines jobs history h closed = rw (serve, h) (rw closed refl)

  serve-next :
      (own : ℕ → Text) (now : ℕ) (line : Text) (lines : List (ℕ × Text)) (jobs : Table)
      (history : List Text)
      → is_empty (trim line) ≡ false
      → (dispatch io sink env own now (trim line) false jobs).keep_open ≡ true
      → (serve io sink env own ((now, line) ∷ lines) false jobs history).0 ≡ (
          let o = dispatch io sink env own now (trim line) false jobs in
          o.effects
          ++ (serve io sink env own lines o.authed o.jobs (record_line (trim line) history)).0)
  unfolding serve
  serve-next own now line lines jobs history h on = rw (serve, h) (rw on refl)

  serve-Guarded :
      (own : ℕ → Text) (lines : List (ℕ × Text)) (jobs : Table) (history : List Text)
      → password_configured env ≡ true
      → Guarded env (serve io sink env own lines false jobs history).0
  serve-Guarded own [] jobs history set = unfold serve in tt
  serve-Guarded own ((now, line) ∷ lines) jobs history set =
      elim (Bool-cases (is_empty (trim line))) [
        | inl blank ↦
            subst (λ r. Guarded env r.0) (sym (serve-blank own now line lines jobs history blank))
              (serve-Guarded own lines jobs history set)
        | inr shown ↦
            let o = dispatch io sink env own now (trim line) false jobs in
            let known = record_line (trim line) history in
            let (g, s) = dispatch-Kept io sink env own now (trim line) jobs set in
            elim (Bool-cases o.keep_open) [
              | inr closed ↦
                  subst (Guarded env)
                    (sym (serve-closed own now line lines jobs history shown closed)) g
              | inl still ↦
                  subst (Guarded env) (sym (serve-next own now line lines jobs history shown still))
                    (after o known g s (serve-Guarded own lines o.jobs known set))
            ]
      ]
    where
      after :
          (o : Outcome) (known : List Text)
          → Guarded env o.effects
          → (o.authed ≡ false) ⊎ Shows env o.effects
          → Guarded env (serve io sink env own lines false o.jobs known).0
          → Guarded env (o.effects ++ (serve io sink env own lines o.authed o.jobs known).0)
      after o known g (inl shut) later =
          Guarded-append env o.effects _ g (
            subst (λ a. Guarded env (serve io sink env own lines a o.jobs known).0) (sym shut)
              later)
      after o known g (inr s) later =
          Guarded-append_Shows env o.effects (serve io sink env own lines o.authed o.jobs known).0 g
            s

  -- Where a password is set, whatever lines a client sends, no handler but those of auth, help, ping
  -- and quit runs, and the answer to an unknown verb, before `auth` is given the right user and
  -- password on this connection: neither in the foreground nor in a job, behind a pipe or a redirect.
  pub handle_client-Guarded :
      (own : ℕ → Text) (lines : List (ℕ × Text)) (jobs : Table) (history : List Text)
      → password_configured env ≡ true
      → Guarded env (handle_client io sink env own lines jobs history).0
  unfolding handle_client
  handle_client-Guarded own lines jobs history set =
      rw set (serve-Guarded own lines jobs history set)

  redirect_open :
      (own : ℕ → Text) (now : ℕ) (path : Text) (append : Bool) (jobs : Table)
      → password_configured env ≡ true
      → dispatch_spec io sink env own now
          (record { cmd = codes "help"; redirect = some (path, append); background = false })
          false
          jobs
        ≡ run_redirected io sink env (codes "help") path append false jobs
  unfolding dispatch_spec
  redirect_open own now path append jobs set = rw set refl

  run_redirected-opens :
      (path : Text) (append : Bool) (jobs : Table)
      → (rest : List Effect) × ((run_redirected io sink env
            (codes "help")
            path
            append
            false
            jobs).effects
          ≡ opens path append ∷ rest)
  unfolding run_redirected
  run_redirected-opens path append jobs = elim (opening (io.open_file path append)) [
    | inl (m, failed) ↦ (
      says (codes "redirect " ++ (path ++ (codes ": " ++ m))) ∷ [],
      rw (run_redirected, failed) refl,
    )
    | inr (file, opened) ↦ (
      (dispatch_piped io sink env (codes "help") false jobs).effects
          ++ says (codes "wrote " ++ path) ∷ [],
      rw (run_redirected, opened) refl,
    )
  ]

  -- Where a password is set, a client that has not given it opens the file of its choice for
  -- writing, emptied or not, by `help > PATH` or `help >> PATH`: the path is not empty, has no white
  -- space, and is none of the signs.
  pub dispatch-redirect_open :
      (own : ℕ → Text) (now : ℕ) (path : Text) (append : Bool) (jobs : Table)
      → password_configured env ≡ true
      → Plain path
      → (rest : List Effect) × ((dispatch io sink env own now
            (join
              (b' ' ∷ [])
              (((codes "help" ∷ []) ++ redirect_words (some (path, append))) ++ ampersand false))
            false
            jobs).effects
          ≡ opens path append ∷ rest)
  unfolding dispatch join
  dispatch-redirect_open own now path append jobs set plain =
      let e =
        parse_job_line-join (codes "help" ∷ []) (some (path, append)) false (help-Plain, tt)
          plain in
      let (rest, opened) = run_redirected-opens path append jobs in
      (
        rest,
        ap (λ spec. (dispatch_spec io sink env own now spec false jobs).effects) e
            ∙ ap (λ (o : Outcome). o.effects) (redirect_open own now path append jobs set)
            ∙ opened,
      )
