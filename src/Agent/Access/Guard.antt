-- ===== src/Agent/Access/Guard.antt =====
-- What a client may run before it has given the password, of rthas/src/agent.rs.
use rthas.Prelude.{
  ◌≡◌, refl, sym, subst, ◌⊎◌, inl, inr, true, false, false≢true, Option, List, [], ◌∷◌, ◌++◌,
  Bool-cases, any, All, Text, codes, text_eq, is_empty, strip_prefix, contains_char,
}
use rthas.Prelude.{text_eq→eq}
use rthas.Pipe.{split_pipeline}
use rthas.Jobs.{Table}
use rthas.Agent.Args.{Args, word, token_of, or_empty}
use rthas.Agent.Args
use rthas.Agent.Access.{
  Command, help, ping, auth, quit, unknown, Env, command_of, auth_free, cmd_auth,
}
use rthas.Agent.Access.Verbs.{lead}
use rthas.Agent.Access.Piped.{Tail, split_pipeline-lead, verb_of, verb_of-lead}
use rthas.Agent.Access.Dispatch.{
  Effect, says, opens, runs, Outcome, authed_after, dispatch_verb, preceded, followed,
}

-- What everybody may run; an unknown verb runs nothing.
abbrev pub IsFree : Command → Type 0
IsFree auth = Unit
IsFree help = Unit
IsFree ping = Unit
IsFree quit = Unit
IsFree unknown = Unit
IsFree other = ⊥

-- `auth`, given the right user and password.
abbrev pub IsRight : Env → Command → Args → Type 0
IsRight env auth args = cmd_auth env args ≡ true
IsRight env other args = ⊥

-- All that runs before the right user and password are given is free.
abbrev pub Guarded : Env → List Effect → Type 0
Guarded env [] = Unit
Guarded env (runs c args ∷ es) = IsRight env c args ⊎ (IsFree c × Guarded env es)
Guarded env (says line ∷ es) = Guarded env es
Guarded env (opens path append ∷ es) = Guarded env es

-- The right user and password are given.
abbrev pub Shows : Env → List Effect → Type 0
Shows env [] = ⊥
Shows env (runs c args ∷ es) = IsRight env c args ⊎ Shows env es
Shows env (says line ∷ es) = Shows env es
Shows env (opens path append ∷ es) = Shows env es

pub Guarded-append :
    (env : Env) (es fs : List Effect) → Guarded env es → Guarded env fs → Guarded env (es ++ fs)
Guarded-append env [] fs g h = h
Guarded-append env (says line ∷ es) fs g h = Guarded-append env es fs g h
Guarded-append env (opens path append ∷ es) fs g h = Guarded-append env es fs g h
Guarded-append env (runs c args ∷ es) fs (inl right) h = inl right
Guarded-append env (runs c args ∷ es) fs (inr (free, g)) h =
    inr (free, Guarded-append env es fs g h)

-- From then on anything goes.
pub Guarded-append_Shows :
    (env : Env) (es fs : List Effect) → Guarded env es → Shows env es → Guarded env (es ++ fs)
Guarded-append_Shows env [] fs g s = elim s [ ]
Guarded-append_Shows env (says line ∷ es) fs g s = Guarded-append_Shows env es fs g s
Guarded-append_Shows env (opens path append ∷ es) fs g s = Guarded-append_Shows env es fs g s
Guarded-append_Shows env (runs c args ∷ es) fs (inl right) s = inl right
Guarded-append_Shows env (runs c args ∷ es) fs (inr (free, g)) (inl right) = inl right
Guarded-append_Shows env (runs c args ∷ es) fs (inr (free, g)) (inr s) =
    inr (free, Guarded-append_Shows env es fs g s)

Shows-append : (env : Env) (es fs : List Effect) → Shows env es → Shows env (es ++ fs)
Shows-append env [] fs s = elim s [ ]
Shows-append env (says line ∷ es) fs s = Shows-append env es fs s
Shows-append env (opens path append ∷ es) fs s = Shows-append env es fs s
Shows-append env (runs c args ∷ es) fs (inl right) = inl right
Shows-append env (runs c args ∷ es) fs (inr s) = inr (Shows-append env es fs s)

append-Shows : (env : Env) (es fs : List Effect) → Shows env fs → Shows env (es ++ fs)
append-Shows env [] fs s = s
append-Shows env (says line ∷ es) fs s = append-Shows env es fs s
append-Shows env (opens path append ∷ es) fs s = append-Shows env es fs s
append-Shows env (runs c args ∷ es) fs s = inr (append-Shows env es fs s)

-- A word that `Args` takes for the verb, and a verb that is free.
abbrev pub Fine : Text → Type 0
Fine w =
    ((next : Option Text) → token_of w next ≡ word) × (is_empty w ≡ false) × IsFree (command_of w)

-- A word that begins a line which nobody is refused.
abbrev pub Admitted : Text → Type 0
Admitted w = (contains_char b'|' w ≡ false) × ((t : Text) → Tail t → Fine (w ++ t))

admit :
    (w : Text)
    → contains_char b'|' w ≡ false
    → Fine (w ++ [])
    → ((u : Text) → Fine (w ++ b'|' ∷ u))
    → Admitted w
admit w h alone barred = (h, λ t tail. on t tail)
  where
    on : (t : Text) → Tail t → Fine (w ++ t)
    on t (inl e) = subst (λ s. Fine (w ++ s)) (sym e) alone
    on t (inr (u, e)) = subst (λ s. Fine (w ++ s)) (sym e) (barred u)

any→All {ℓ} :
    (P : Text → Type ℓ) (w : Text) (vs : List Text) → All P vs → any (text_eq w) vs ≡ true → P w
any→All P w [] all h = absurd (false≢true h)
any→All P w (v ∷ vs) (here, all) h = elim (Bool-cases (text_eq w v)) [
  | inl same ↦ subst P (sym (text_eq→eq w v same)) here
  | inr other ↦ let later : any (text_eq w) vs ≡ true = (rw other at h) in any→All P w vs all later
]

pub auth_free-Admitted : (w : Text) → auth_free w ≡ true → Admitted w
unfolding auth_free token_of command_of contains_char strip_prefix
auth_free-Admitted w h =
    any→All Admitted w
      (codes "auth"
        ∷ codes "help"
        ∷ codes "?"
        ∷ codes "ping"
        ∷ codes "quit"
        ∷ codes "exit"
        ∷ codes "q"
        ∷ [])
      (
        admit (codes "auth") refl (λ next. refl, refl, tt) (λ u. (λ next. refl, refl, tt)),
        (
          admit (codes "help") refl (λ next. refl, refl, tt) (λ u. (λ next. refl, refl, tt)),
          (
            admit (codes "?") refl (λ next. refl, refl, tt) (λ u. (λ next. refl, refl, tt)),
            (
              admit (codes "ping") refl (λ next. refl, refl, tt) (λ u. (λ next. refl, refl, tt)),
              (
                admit (codes "quit") refl (λ next. refl, refl, tt) (λ u. (λ next. refl, refl, tt)),
                (
                  admit (codes "exit") refl (λ next. refl, refl, tt)
                      (λ u. (λ next. refl, refl, tt)),
                  (
                    admit (codes "q") refl (λ next. refl, refl, tt) (λ u. (λ next. refl, refl, tt)),
                    tt,
                  ),
                ),
              ),
            ),
          ),
        ),
      )
      h

-- What a line that nobody is refused comes to: nothing but what is free runs, and whoever was not
-- known stays so, but for the right user and password.
abbrev pub Kept : Env → Outcome → Type 0
Kept env o = Guarded env o.effects × ((o.authed ≡ false) ⊎ Shows env o.effects)

authed_after-free :
    (env : Env) (args : Args) (c : Command)
    → IsFree c
    → (Guarded env (runs c args ∷ []))
      × ((authed_after env args c false ≡ false) ⊎ Shows env (runs c args ∷ []))
authed_after-free env args auth free = elim (Bool-cases (cmd_auth env args)) [
  | inl right ↦ (inr (tt, tt), inr (inl right))
  | inr wrong ↦ (inr (tt, tt), inl wrong)
]
authed_after-free env args help free = (inr (tt, tt), inl refl)
authed_after-free env args ping free = (inr (tt, tt), inl refl)
authed_after-free env args quit free = (inr (tt, tt), inl refl)
authed_after-free env args unknown free = (inr (tt, tt), inl refl)
authed_after-free env args other free = elim free [ ]

dispatch_verb-Kept :
    (env : Env) (line : Text) (jobs : Table)
    → IsFree (command_of (verb_of line))
    → Kept env (dispatch_verb env line false jobs)
unfolding dispatch_verb
dispatch_verb-Kept env line jobs free =
    authed_after-free env (Args.parse line) (command_of (verb_of line)) free

-- A command whose line begins with a word that is admitted.
pub dispatch_verb-split :
    (env : Env) (line : Text) (jobs : Table)
    → Admitted (lead line)
    → Kept env (dispatch_verb env (split_pipeline line).0 false jobs)
dispatch_verb-split env line jobs (no_bar, admitted) =
    let (t, tail, e) = split_pipeline-lead line no_bar in
    let fine : Fine (lead (split_pipeline line).0) = subst Fine (sym e) (admitted t tail) in
    let (is_word, there, free) = fine in
    dispatch_verb-Kept env (split_pipeline line).0 jobs (
      subst (λ v. IsFree (command_of v)) (sym (verb_of-lead (split_pipeline line).0 is_word there))
        free)

-- Effects that run nothing.
abbrev pub Quiet : List Effect → Type 0
Quiet [] = Unit
Quiet (runs c args ∷ es) = ⊥
Quiet (says line ∷ es) = Quiet es
Quiet (opens path append ∷ es) = Quiet es

Quiet-Guarded : (env : Env) (es : List Effect) → Quiet es → Guarded env es
Quiet-Guarded env [] h = tt
Quiet-Guarded env (runs c args ∷ es) h = elim h [ ]
Quiet-Guarded env (says line ∷ es) h = Quiet-Guarded env es h
Quiet-Guarded env (opens path append ∷ es) h = Quiet-Guarded env es h

pub Quiet-append : (es fs : List Effect) → Quiet es → Quiet fs → Quiet (es ++ fs)
Quiet-append [] fs g h = h
Quiet-append (runs c args ∷ es) fs g h = elim g [ ]
Quiet-append (says line ∷ es) fs g h = Quiet-append es fs g h
Quiet-append (opens path append ∷ es) fs g h = Quiet-append es fs g h

pub preceded-Kept :
    (env : Env) (es : List Effect) (o : Outcome) → Quiet es → Kept env o → Kept env (preceded es o)
preceded-Kept env es o quiet (g, inl shut) =
    (Guarded-append env es o.effects (Quiet-Guarded env es quiet) g, inl shut)
preceded-Kept env es o quiet (g, inr s) = (
  Guarded-append env es o.effects (Quiet-Guarded env es quiet) g,
  inr (append-Shows env es o.effects s),
)

pub followed-Kept :
    (env : Env) (es : List Effect) (o : Outcome) → Quiet es → Kept env o → Kept env (followed o es)
followed-Kept env es o quiet (g, inl shut) =
    (Guarded-append env o.effects es g (Quiet-Guarded env es quiet), inl shut)
followed-Kept env es o quiet (g, inr s) = (
  Guarded-append env o.effects es g (Quiet-Guarded env es quiet),
  inr (Shows-append env o.effects es s),
)
