-- ===== src/Samples/Outside.antt =====
-- Instances for processes looked at from outside.
use rthas.Prelude.{
  ℕ, ◌≡◌, refl, inr, Bool, true, false, Option, none, some, List, [], ◌∷◌, ◌++◌, arith, ◌==◌,
  if◌then◌else◌, Text, codes, strip_prefix, starts_with, after_first, contains, contains_char,
}
use rthas.Glob.{glob_match}
use rthas.Attached.Symbols.{Symbol, select_ids}
use rthas.Attached.Symbols.Selected.{Answer, select_ids-Answer}
use rthas.Attached.Sampling.{RawEvent, new_forest, collect_samples, from_bytes}
use rthas.Attached.Sampling.Newest.{collect_all, collect_samples-newest, collect_samples-endless}
use rthas.Attached.Sampling.Decoding.{written, from_bytes-written}

abbrev symbol : Text → Text → Symbol
symbol mangled demangled = record {
  mangled = mangled;
  demangled = demangled;
  object = codes "/bin/app";
  vaddr = 4096;
  enabled = false;
}

abbrev table : List Symbol
table =
    symbol (codes "_ZN3app3run") (codes "app::run")
    ∷ symbol (codes "_ZN3std3run") (codes "std::run")
    ∷ symbol (codes "run_c") (codes "run_c")
    ∷ []

select_ids-Answer_example : Answer (codes "run") table (select_ids table (codes "run"))
select_ids-Answer_example = select_ids-Answer table (codes "run")

-- The standard library's function is passed over.
select_ids_test : select_ids table (codes "run") ≡ inr (0 ∷ 2 ∷ [])
unfolding select_ids glob_match contains starts_with strip_prefix after_first contains_char
select_ids_test = refl

abbrev ev_of : ℕ → ℕ → RawEvent
ev_of ts kind = record { ts_ns = ts; ip = 77; tid = 5; kind = kind }

abbrev polls : List (List RawEvent × Bool)
polls = (ev_of 10 0 ∷ [], false) ∷ ([], false) ∷ (ev_of 30 1 ∷ [], true) ∷ []

abbrev only_id : ℕ → Option ℕ
only_id ip = if ip == 77 then some 3 else none

collect_samples-newest_example :
    collect_samples only_id 2 polls ≡ collect_all only_id 2 polls new_forest []
collect_samples-newest_example = collect_samples-newest only_id 2 polls

abbrev early : List (List RawEvent × Bool)
early = (ev_of 10 0 ∷ ev_of 30 1 ∷ [], false) ∷ ([], false) ∷ []

collect_samples-endless_example : collect_samples only_id 20000 early ≡ none
collect_samples-endless_example =
    collect_samples-endless only_id 20000 early (omega arith) (refl, (refl, tt))

from_bytes-written_example :
    (from_bytes (written (ev_of 70000 1) 0 0 0 ++ 9 ∷ []) ≡ some (ev_of 70000 1))
    × (from_bytes (1 ∷ 2 ∷ []) ≡ none)
from_bytes-written_example =
    from_bytes-written (ev_of 70000 1) 0 0 0 (9 ∷ []) (1 ∷ 2 ∷ []) (omega arith) (omega arith)
      (omega arith) (omega arith) (omega arith)
