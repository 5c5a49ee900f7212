-- ===== src/Samples/Filters.antt =====
-- Instances for patterns, pipes and their stages.
use rthas.Prelude.{
  ℕ, ◌≡◌, ◌↔◌, refl, true, false, some, inr, List, [], ◌∷◌, ◌++◌, arith, map, Text, codes, contains,
  after_first, strip_prefix, succ_u64, to_text,
}
use rthas.Probe.{Probe, sync}
use rthas.Probe.Registry.{set_enabled_matching}
use rthas.Probe.Registry.Selecting.{AllSelected, changes, set_enabled_matching-AllSelected}
use rthas.Glob.{glob_match}
use rthas.Glob.Decides.{Matches, glob_match_iff}
use rthas.Pipe.Grep.{Grep, stopped, matches, format, feed_hit, feed_miss, feed, feed_all, finish}
use rthas.Pipe.Grep.Context.{in_context}
use rthas.Pipe.Grep.Shown.{feed_all-in_context}
use rthas.Pipe.Grep.Count.{limited, count, finish-feed_all}
use rthas.Pipe.Stage.{Io, Pipeline, grep, tee, wc, and_then, write, finish_all}
use rthas.Pipe.Stage.Passing.{stage_by_stage}
use rthas.Pipe.Stage.Bytes.{text_lines, write-append, finish_all-write}

glob_match_iff_example :
    (glob_match (codes "src::*::run") (codes "app::src::main::run") ≡ true)
    ↔ Matches (codes "src::*::run") (codes "app::src::main::run")
glob_match_iff_example = glob_match_iff (codes "src::*::run") (codes "app::src::main::run")

abbrev command : Text
command = codes "watch --ret Err|Ok | grep -c a | wc"

abbrev foo : Grep
foo = record {
  pattern = codes "foo";
  ignore_case = false;
  invert = false;
  line_number = true;
  count_only = false;
  max_count = 0;
  before = 1;
  after = 1;
  line_no = 0;
  hits = 0;
  pending_after = 0;
  before_buf = [];
}

abbrev lines : List Text
lines = codes "a" ∷ codes "b" ∷ codes "foo" ∷ codes "c" ∷ codes "d" ∷ codes "a foo" ∷ []

feed_all-in_context_example :
    (feed_all foo lines).1 ≡ map (format foo) (in_context (matches foo) 1 1 [] 0 lines)
feed_all-in_context_example =
    feed_all-in_context foo lines (refl, refl, refl, refl) refl refl (omega arith)

abbrev counting : Grep
counting = record foo { count_only = true; max_count = 1 }

finish-feed_all_example :
    finish (feed_all counting lines).0 ≡ to_text (limited 1 (count (matches counting) lines)) ∷ []
finish-feed_all_example = finish-feed_all counting lines (refl, refl, refl, refl) refl (omega arith)

-- Files and a terminal in memory.
abbrev memory : Io (List Text) (List Text)
memory = record {
  open_file = λ path append. inr [];
  write_file = λ file line. some (file ++ line ∷ []);
  flush_file = λ file. some file;
  write_sink = λ sink line. some (sink ++ line ∷ []);
  flush_sink = λ sink. some sink;
  decode = λ bytes. bytes;
}

abbrev pipeline : Pipeline (List Text) (List Text)
pipeline = record { inner = []; stages = grep foo ∷ tee [] ∷ wc 0 ∷ []; buf = [] }

write-append_example :
    and_then (write memory (codes "a fo") pipeline) (write memory (codes "o" ++ b'\n' ∷ codes "b"))
    ≡ write memory (codes "a fo" ++ (codes "o" ++ b'\n' ∷ codes "b")) pipeline
write-append_example = write-append memory (codes "a fo") (codes "o" ++ b'\n' ∷ codes "b") pipeline

abbrev bytes : List ℕ
bytes = codes "a" ++ b'\n' ∷ codes "foo" ++ b'\r' ∷ b'\n' ∷ codes "c"

finish_all-write_example :
    and_then (write memory bytes pipeline) (finish_all memory)
    ≡ stage_by_stage memory (text_lines memory bytes) pipeline
finish_all-write_example = finish_all-write memory bytes pipeline refl

-- The same runs, computed.
foo_shown :
    (feed_all foo lines).1
    ≡ codes "2:b" ∷ codes "3:foo" ∷ codes "4:c" ∷ codes "5:d" ∷ codes "6:a foo" ∷ []
unfolding feed_all feed stopped matches feed_hit feed_miss format contains after_first strip_prefix
    to_text succ_u64
foo_shown = refl

abbrev probe : Text → ℕ → Probe
probe path flag = record {
  path = path;
  file = codes "src/main.rs";
  line = 1;
  kind = sync;
  id = 0;
  flag = flag;
}

abbrev probes : List Probe
probes = probe (codes "app::run") 0 ∷ probe (codes "app::stop") 3 ∷ []

set_enabled_matching-AllSelected_example :
    AllSelected (codes "*::run") true probes (set_enabled_matching (codes "*::run") true probes).0
    × ((set_enabled_matching (codes "*::run") true probes).1
        ≡ changes probes (set_enabled_matching (codes "*::run") true probes).0)
set_enabled_matching-AllSelected_example =
    set_enabled_matching-AllSelected (codes "*::run") true probes (omega arith, (omega arith, tt))
