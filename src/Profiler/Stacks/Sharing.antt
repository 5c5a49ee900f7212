-- ===== src/Profiler/Stacks/Sharing.antt =====
-- How the filters of rthas/src/profiler.rs share out the samples.
use rthas.Prelude.{
  ℕ, ◌+◌, ◌%◌, u64_mod, ◌≡◌, refl, sym, ap, ◌∙◌, inl, inr, false, false≢true, List, [], ◌∷◌, arith,
  Bool-cases, filter, Text, is_empty, split,
}
use rthas.Prelude.{trim}
use rthas.Profiler.Stacks.{
  Stacks, total, split_patterns, hit, keeps, filter_stacks, filter_snapshot,
}

split_patterns-nil : split_patterns [] ≡ []
unfolding split_patterns split trim
split_patterns-nil = refl

filter-share :
    (patterns : List Text) (stacks : Stacks)
    → is_empty patterns ≡ false
    → (total (filter (λ (e : List Text × ℕ). keeps patterns [] e.0) stacks)
          + total (filter (λ (e : List Text × ℕ). keeps [] patterns e.0) stacks))
        % u64_mod
      ≡ total stacks
unfolding keeps total
filter-share patterns [] h = refl
filter-share patterns ((stack, n) ∷ stacks) h = elim (Bool-cases (hit patterns stack)) [
  | inl there ↦ rw (h, there) (omega (arith, filter-share patterns stacks h))
  | inr missed ↦ rw (h, missed) (omega (arith, filter-share patterns stacks h))
]

-- Where a list of patterns has one that is not blank, including by it and excluding by it share the
-- samples: together the two filters keep all of them, and none twice, modulo 2^64.
filter_snapshot-share :
    (patterns : Text) (stacks : Stacks)
    → is_empty (split_patterns patterns) ≡ false
    → (total (filter_snapshot patterns [] stacks) + total (filter_snapshot [] patterns stacks))
        % u64_mod
      ≡ total stacks
unfolding filter_snapshot filter_stacks
filter_snapshot-share [] stacks h = absurd (false≢true (sym h ∙ ap is_empty split_patterns-nil))
filter_snapshot-share (c ∷ patterns) stacks h =
    filter-share (split_patterns (c ∷ patterns)) stacks h
