-- ===== src/Attached/Symbols.antt =====
-- The choice of functions of rthas-ebpf/src/symbols.rs and `set_enabled` of rthas-ebpf/src/server.rs.
pub mod Selected
use rthas.Prelude.{
  ℕ, suc, ◌+◌, ◌-◌, min, Bool, true, false, not, ◌&&◌, ◌||◌, ◌⊎◌, inl, inr, List, [], ◌∷◌, ◌++◌,
  ltb, if◌then◌else◌, length, take, Text, codes, is_empty, starts_with, contains, u64_mod,
}
use rthas.Glob.{glob_match}
use rthas.Probe.Registry.{differs}

pub record Symbol : Type 0 where
  pub mangled : Text
  pub demangled : Text
  pub object : Text
  pub vaddr : ℕ
  pub enabled : Bool

-- `saturating_add`.
unfoldable pub runtime_ip : ℕ → Symbol → ℕ
runtime_ip load_bias s = min (s.vaddr + load_bias) (u64_mod - 1)

unfoldable pub is_internal : Text → Text → Bool
unfolding starts_with contains
is_internal demangled mangled =
    starts_with demangled (codes "std::")
    || starts_with demangled (codes "core::")
    || starts_with demangled (codes "alloc::")
    || contains demangled (codes "::std::")
    || starts_with mangled (codes "__")
    || starts_with mangled (codes "pthread")
    || starts_with demangled (codes "pthread")

unfoldable pub pattern_targets_internal : Text → Bool
unfolding starts_with contains
pattern_targets_internal pattern =
    contains pattern (codes "std::")
    || contains pattern (codes "core::")
    || contains pattern (codes "alloc::")
    || starts_with pattern (codes "__")
    || contains pattern (codes "pthread")

unfoldable pub keep_symbol : Text → Text → Text → Bool
unfolding glob_match is_internal pattern_targets_internal
keep_symbol pattern demangled mangled =
    if not (glob_match pattern demangled) && not (glob_match pattern mangled)
    then false
    else if is_internal demangled mangled && not (pattern_targets_internal pattern)
    then false
    else true

abbrev pub max_attach : ℕ
max_attach = 64

-- `enumerate`, `filter` and `map`, from an index on.
unfoldable pub matching_from : ℕ → Text → List Symbol → List ℕ
unfolding keep_symbol
matching_from i pattern [] = []
matching_from i pattern (s ∷ symbols) =
    let rest = matching_from (suc i) pattern symbols in
    if keep_symbol pattern s.demangled s.mangled then i ∷ rest else rest

unfoldable pub select_ids : List Symbol → Text → Text ⊎ List ℕ
unfolding matching_from
select_ids symbols pattern =
    let ids = matching_from 0 pattern symbols in
    if is_empty pattern
    then inl (codes "eBPF attach needs a pattern (refusing to probe every symbol)")
    else if is_empty ids
    then inl (codes "no symbols matching '" ++ (pattern ++ codes "'"))
    else if ltb max_attach (length ids)
    then inr (take max_attach ids)
    else inr ids

-- The symbols afterwards, and how many changed.
unfoldable pub set_enabled : Text → Bool → List Symbol → List Symbol × ℕ
unfolding keep_symbol
set_enabled pattern on [] = ([], 0)
set_enabled pattern on (s ∷ symbols) =
    let (rest, n) = set_enabled pattern on symbols in
    if keep_symbol pattern s.demangled s.mangled
    then (record s { enabled = on } ∷ rest, (if differs s.enabled on then n + 1 else n))
    else (s ∷ rest, n)
