-- ===== src/Samples/Commands.antt =====
-- Instances for the history and the jobs.
use rthas.Prelude.{
  ℕ, ◌-◌, ◌≡◌, refl, true, none, some, List, [], ◌∷◌, ◌++◌, arith, inr, length, drop, Text, codes,
  join, to_text, is_whitespace,
}
use rthas.Base64.{encode, decode}
use rthas.Base64.RoundTrip.{decode-encode}
use rthas.History.{cap}
use rthas.History.Newest.{record_all, commands, record_all-commands}
use rthas.Jobs.{parse_job_line}
use rthas.Jobs.Lines.{redirect_words, ampersand, parse_job_line-join}
use rthas.Jobs.Session.{Op, submits, finishes, kills, run, no_jobs, jobs_of, run-jobs_of}

abbrev typed : List Text
typed = codes " list " ∷ codes "  " ∷ codes "history 3" ∷ []

record_all-commands_example :
    record_all typed [] ≡ drop (length (commands typed) - cap) (commands typed)
record_all-commands_example = record_all-commands typed

abbrev watch : List Text
watch = codes "watch" ∷ codes "run" ∷ []

parse_job_line-join_example :
    parse_job_line (
      join (b' ' ∷ []) ((watch ++ redirect_words (some (codes "out.log", true))) ++ ampersand true))
    ≡ record {
      cmd = join (b' ' ∷ []) watch;
      redirect = some (codes "out.log", true);
      background = true;
    }
unfolding is_whitespace
parse_job_line-join_example =
    parse_job_line-join watch (some (codes "out.log", true)) true
      (
        ((refl, (refl, (refl, (refl, (refl, (refl, tt)))))), refl, refl, refl),
        (((refl, (refl, (refl, (refl, tt)))), refl, refl, refl), tt),
      )
      ((refl, (refl, (refl, (refl, (refl, (refl, (refl, (refl, tt)))))))), refl, refl, refl)

abbrev session : List Op
session =
    submits (codes "watch run") none 5
    ∷ submits (codes "trace run") (some (codes "out.log", true)) 6
    ∷ kills 1
    ∷ finishes 1 true
    ∷ []

abbrev log_name : ℕ → Text
log_name id = codes "job-" ++ to_text id

run-jobs_of_example : (run log_name session no_jobs).jobs ≡ jobs_of log_name 1 session
run-jobs_of_example = run-jobs_of log_name session (omega arith)

decode-encode_example : decode (encode (97 ∷ 98 ∷ 99 ∷ 10 ∷ [])) ≡ inr (97 ∷ 98 ∷ 99 ∷ 10 ∷ [])
decode-encode_example =
    decode-encode (97 ∷ 98 ∷ 99 ∷ 10 ∷ [])
      (omega arith, (omega arith, (omega arith, (omega arith, tt))))
