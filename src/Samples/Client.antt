-- ===== src/Samples/Client.antt =====
-- Instances for the terminal client.
use rthas.Prelude.{ℕ, ◌≡◌, refl, true, some, List, [], ◌∷◌, ◌++◌, codes, strip_prefix, starts_with}
use rthas.Client.Scan.{file_contains}
use rthas.Client.Scan.Found.{occurs, joined, ending, all_reads, file_contains-occurs}
use rthas.Client.Target.{
  rotate_target_flags, parse_target, no_target, pid, password, sock_dir, kind_of,
}
use rthas.Client.Target.Rotating.{
  Item, apart, glued, passed, tokens_of, all_tokens, applied, all_applied, passed_on, flag_name,
  parse_target-rotate, parse_target-sock_dir,
}

abbrev pieces : List (List ℕ)
pieces = (1 ∷ 2 ∷ 7 ∷ []) ∷ (8 ∷ []) ∷ (9 ∷ 3 ∷ []) ∷ []

file_contains-occurs_example :
    file_contains (some (all_reads pieces true)) (7 ∷ 8 ∷ 9 ∷ [])
    ≡ ending (occurs (7 ∷ 8 ∷ 9 ∷ []) (joined pieces)) true
file_contains-occurs_example =
    file_contains-occurs 7 (8 ∷ 9 ∷ []) pieces true (refl, (refl, (refl, tt)))

abbrev arguments : List Item
arguments = passed (codes "run::*") ∷ glued password (codes "x=y") ∷ passed (codes "--native") ∷ []

parse_target-rotate_example :
    (rotate_target_flags (tokens_of (apart pid (codes "5")) ++ codes "trace" ∷ all_tokens arguments)
      ≡ codes "trace" ∷ (all_tokens arguments ++ tokens_of (apart pid (codes "5"))))
    × (parse_target (all_tokens arguments ++ tokens_of (apart pid (codes "5")))
        ≡ (applied (apart pid (codes "5")) (all_applied arguments no_target), passed_on arguments))
unfolding kind_of starts_with strip_prefix
parse_target-rotate_example =
    parse_target-rotate (apart pid (codes "5")) (codes "trace") arguments tt
      (refl, (tt, (refl, tt)))

parse_target-sock_dir_example :
    (rotate_target_flags
        ((flag_name sock_dir ++ b'=' ∷ codes "/run") ∷ codes "trace" ∷ all_tokens arguments)
      ≡ codes "trace" ∷ (all_tokens arguments ++ (flag_name sock_dir ++ b'=' ∷ codes "/run") ∷ []))
    × (parse_target (all_tokens arguments ++ (flag_name sock_dir ++ b'=' ∷ codes "/run") ∷ []) ≡ (
      all_applied arguments no_target,
      passed_on arguments ++ (flag_name sock_dir ++ b'=' ∷ codes "/run") ∷ [],
    ))
unfolding kind_of starts_with strip_prefix
parse_target-sock_dir_example =
    parse_target-sock_dir (codes "/run") (codes "trace") arguments (refl, (tt, (refl, tt)))
