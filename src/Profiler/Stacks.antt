-- ===== src/Profiler/Stacks.antt =====
-- The folded stacks of rthas/src/profiler.rs: names from the root on, and how often they were seen.
-- No count is negative; a sum of counts is an `i64`, by its 64 bits.
pub mod Sharing
use rthas.Prelude.{
  ℕ, ◌+◌, ◌%◌, u64_mod, Bool, not, ◌&&◌, ◌||◌, List, [], ◌∷◌, ◌++◌, any, filter, map, if◌then◌else◌,
  Text, codes, is_empty, contains, split,
}
use rthas.Prelude.{trim, join, to_text}
use rthas.Glob.{glob_match}

abbrev pub Stacks : Type 0
Stacks = List (List Text × ℕ)

-- `Snapshot::total`.
unfoldable pub total : Stacks → ℕ
total [] = 0
total ((stack, n) ∷ stacks) = (n + total stacks) % u64_mod

abbrev pub runtime_markers : List Text
runtime_markers =
    codes "tokio::"
    ∷ codes "std::thread"
    ∷ codes "std::panic"
    ∷ codes "std::panicking"
    ∷ codes "std::sys::"
    ∷ codes "std::rt::"
    ∷ codes "std::time::"
    ∷ codes "std::hint::"
    ∷ codes "core::ops::function"
    ∷ codes "core::panic"
    ∷ codes "core::ptr::"
    ∷ codes "core::cmp::"
    ∷ codes "core::hint::"
    ∷ codes "alloc::boxed"
    ∷ codes "__pthread"
    ∷ codes "_pthread"
    ∷ codes "pthread_"
    ∷ codes "___rust_try"
    ∷ codes "start_wqthread"
    ∷ []

unfoldable pub is_runtime_frame : Text → Bool
unfolding contains
is_runtime_frame name = any (contains name) runtime_markers

unfoldable pub compact_stacks : Stacks → Stacks
unfolding is_runtime_frame
compact_stacks [] = []
compact_stacks ((stack, n) ∷ stacks) =
    let rest = compact_stacks stacks in
    let kept = filter (λ name. not (is_runtime_frame name)) stack in
    if is_empty kept then rest else (kept, n) ∷ rest

unfoldable pub split_patterns : Text → List Text
unfolding split trim
split_patterns raw = filter (λ s. not (is_empty s)) (map trim (split b',' raw))

unfoldable pub hit : List Text → List Text → Bool
unfolding glob_match
hit patterns stack = any (λ p. any (glob_match p) stack) patterns

unfoldable pub keeps : List Text → List Text → List Text → Bool
unfolding hit
keeps include exclude stack =
    (is_empty include || hit include stack) && (is_empty exclude || not (hit exclude stack))

unfoldable pub filter_stacks : Text → Text → Stacks → Stacks
unfolding split_patterns keeps
filter_stacks include exclude stacks =
    filter
      (λ (entry : List Text × ℕ). keeps (split_patterns include) (split_patterns exclude) entry.0)
      stacks

-- `Snapshot::filter`, on the stacks.
unfoldable pub filter_snapshot : Text → Text → Stacks → Stacks
unfolding filter_stacks
filter_snapshot include exclude stacks =
    if is_empty include && is_empty exclude then stacks else filter_stacks include exclude stacks

unfoldable pub render_collapsed : Stacks → Text
unfolding join to_text
render_collapsed [] = []
render_collapsed ((stack, n) ∷ stacks) =
    let rest = render_collapsed stacks in
    if is_empty stack
    then rest
    else join (codes ";") stack ++ (b' ' ∷ (to_text n ++ (b'\n' ∷ rest)))
