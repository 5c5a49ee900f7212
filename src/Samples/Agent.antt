-- ===== src/Samples/Agent.antt =====
-- Instances for the agent.
use rthas.Prelude.{
  ℕ, ◌≡◌, ◌↔◌, refl, inr, true, false, none, some, List, [], ◌∷◌, ◌++◌, arith, Text, codes,
  is_whitespace, strip_prefix, starts_with, contains_char,
}
use rthas.Prelude.{join}
use rthas.Probe.{Probe, sync}
use rthas.Jobs.{Table}
use rthas.Jobs.Lines.{redirect_words, ampersand}
use rthas.Pipe.Stage.{Io}
use rthas.Agent.Args.{parse, get, valueless}
use rthas.Agent.Args.Line.{Item, plain, given, spaced, switch, bare, line_of, words_of, last_value}
use rthas.Agent.Args.Reading.{parse-line_of}
use rthas.Agent.Scope.{enter, drop_scope}
use rthas.Agent.Scope.Restoring.{AllOn, AllRestored, drop_scope-enter}
use rthas.Agent.Scope.Overlap.{overlapping, AllLeftOn, overlapping-AllLeftOn}
use rthas.Agent.Access.{Env, password_configured, as_bytes, secrets_match}
use rthas.Agent.Access.Secrets.{secrets_match_iff}
use rthas.Agent.Access.Dispatch.{Effect, opens, dispatch, handle_client}
use rthas.Agent.Access.Guard.{Guarded}
use rthas.Agent.Access.Connection.{handle_client-Guarded, dispatch-redirect_open}

abbrev typed : List Item
typed =
    plain (codes "trace")
    ∷ switch (codes "native")
    ∷ plain (codes "run::*")
    ∷ spaced (codes "count") (codes "5")
    ∷ given (codes "count") (codes "a=7")
    ∷ bare (codes "depth")
    ∷ []

parse-line_of_example :
    ((parse (line_of typed)).pos ≡ words_of typed)
    × (get (parse (line_of typed)) (codes "count") ≡ last_value (codes "count") typed)
unfolding is_whitespace starts_with strip_prefix contains_char valueless
parse-line_of_example = parse-line_of typed (codes "count") (
  ((refl, (refl, (refl, (refl, (refl, (refl, tt)))))), refl),
  (
    ((refl, (refl, (refl, (refl, (refl, (refl, tt)))))), refl, refl),
    (
      ((refl, (refl, (refl, (refl, (refl, (refl, (refl, tt))))))), refl),
      (
        (((refl, (refl, (refl, (refl, (refl, tt))))), refl, refl), ((refl, (refl, tt)), refl)),
        (
          ((refl, (refl, (refl, (refl, (refl, tt))))), refl, (refl, (refl, (refl, tt)))),
          ((((refl, (refl, (refl, (refl, (refl, tt))))), refl, refl), tt), tt),
        ),
      ),
    ),
  ),
)

abbrev probe_of : Text → ℕ → ℕ → Probe
probe_of path id flag = record {
  path = path;
  file = codes "a.rs";
  line = 1;
  kind = sync;
  id = id;
  flag = flag;
}

abbrev pub quiet : List Probe
quiet =
    probe_of (codes "run::a") 0 0 ∷ probe_of (codes "init") 1 1 ∷ probe_of (codes "run::b") 2 3 ∷ []

-- The same, turned off meanwhile.
abbrev turned_off : List Probe
turned_off =
    probe_of (codes "run::a") 0 0 ∷ probe_of (codes "init") 1 0 ∷ probe_of (codes "run::b") 2 0 ∷ []

drop_scope-enter_example :
    AllOn (codes "run") true quiet (enter (codes "run") true quiet).1
    × AllRestored
        (codes "run")
        quiet
        turned_off
        (drop_scope (enter (codes "run") true quiet).0 turned_off)
drop_scope-enter_example =
    drop_scope-enter (codes "run") true quiet turned_off (omega arith)
      ((refl, omega arith, (refl, omega arith, (refl, omega arith, tt))))

overlapping-AllLeftOn_example :
    AllLeftOn
      (codes "run")
      (codes "a")
      true
      quiet
      (overlapping (codes "run") true (codes "a") false quiet)
overlapping-AllLeftOn_example =
    overlapping-AllLeftOn (codes "run") true (codes "a") false quiet (omega arith)

-- Files that can all be opened.
abbrev open_disk : Io Text Text
open_disk = record {
  open_file = λ path append. inr path;
  write_file = λ file line. some file;
  flush_file = λ file. some file;
  write_sink = λ sink line. some sink;
  flush_sink = λ sink. some sink;
  decode = λ bytes. bytes;
}

abbrev guarded : Env
guarded = record { username = none; password = some (codes "s3") }

abbrev no_jobs : Table
no_jobs = record { next_id = 1; jobs = [] }

abbrev own_log : ℕ → Text
own_log id = codes "/tmp/log"

abbrev attempts : List (ℕ × Text)
attempts =
    (1, codes "stop")
    ∷ (2, codes "help | stop")
    ∷ (3, codes "ping | tee f &")
    ∷ (4, codes "auth --password s3")
    ∷ (5, codes "trace run")
    ∷ []

handle_client-Guarded_example :
    Guarded guarded (handle_client open_disk [] guarded own_log attempts no_jobs []).0
unfolding password_configured
handle_client-Guarded_example =
    handle_client-Guarded open_disk [] guarded own_log attempts no_jobs [] refl

dispatch-redirect_open_example :
    (rest : List Effect) × ((dispatch open_disk [] guarded own_log 7
        (join (b' ' ∷ []) (
          ((codes "help" ∷ []) ++ redirect_words (some (codes "/etc/x", false)))
          ++ ampersand false))
        false
        no_jobs).effects
      ≡ opens (codes "/etc/x") false ∷ rest)
unfolding password_configured is_whitespace
dispatch-redirect_open_example =
    dispatch-redirect_open open_disk [] guarded own_log 7 (codes "/etc/x") false no_jobs refl
      ((refl, (refl, (refl, (refl, (refl, (refl, (refl, tt))))))), refl, refl, refl)

secrets_match_iff_example :
    (secrets_match (codes "s3") (codes "s3") ≡ true)
    ↔ (as_bytes (codes "s3") ≡ as_bytes (codes "s3"))
secrets_match_iff_example = secrets_match_iff (codes "s3") (codes "s3")
