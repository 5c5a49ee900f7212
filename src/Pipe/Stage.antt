-- ===== src/Pipe/Stage.antt =====
-- `Stage` and `Pipeline` of rthas/src/pipe.rs. Files, the writer behind the pipeline and the reading
-- of bytes as text are the operating system's and the standard library's: an `Io`.
pub mod Passing
pub mod Bytes
use rthas.Prelude.{
  ℕ, zero, suc, Bool, Option, none, some, List, [], ◌∷◌, ◌++◌, ◌⊎◌, inl, inr, ◌==◌, if◌then◌else◌,
  length, succ_u64, Text, codes, text_eq, is_empty, to_text, trim_end_matches,
}
use rthas.Pipe.{first_word}
use rthas.Pipe.Grep
use rthas.Pipe.Grep.{Grep}
use rthas.Pipe.Grep.Parse
use rthas.Pipe.Tee.{parse_tee}

-- `OpenOptions::open` for a path and whether to append, `writeln!` and `flush` on a file and on the
-- writer, `String::from_utf8_lossy`. An error of the last four ends the command: it has no state.
pub record Io (File Sink : Type 0) : Type 0 where
  pub open_file : Text → Bool → Text ⊎ File
  pub write_file : File → Text → Option File
  pub flush_file : File → Option File
  pub write_sink : Sink → Text → Option Sink
  pub flush_sink : Sink → Option Sink
  pub decode : List ℕ → Text

pub data Stage (File : Type 0) : Type 0 where
  grep : Grep → Stage File
  tee : File → Stage File
  wc : ℕ → Stage File

-- The `?` of the source on an `io::Result`.
abbrev pub and_then {ℓ κ} : {A : Type ℓ} {B : Type κ} → Option A → (A → Option B) → Option B
and_then none next = none
and_then (some a) next = next a

pub record Pipeline (File Sink : Type 0) : Type 0 where
  pub inner : Sink
  pub stages : List (Stage File)
  pub buf : List ℕ

module _ {File Sink : Type 0} (io : Io File Sink) where
  abbrev pub as_grep : Text ⊎ Grep → Text ⊎ Stage File
  as_grep (inl e) = inl e
  as_grep (inr g) = inr (grep g)

  abbrev pub as_tee : Text ⊎ (Text × Bool) → Text ⊎ Stage File
  as_tee (inl e) = inl e
  as_tee (inr (path, append)) = elim (io.open_file path append) [
    | inl e ↦ inl e
    | inr file ↦ inr (tee file)
  ]

  -- `Stage::parse`. What `open` answers with is the whole text of its error.
  unfoldable pub parse : Text → Text ⊎ Stage File
  unfolding first_word Parse.parse parse_tee
  parse spec =
      if text_eq (first_word spec) (codes "grep")
      then as_grep (Parse.parse spec)
      else if text_eq (first_word spec) (codes "tee")
      then as_tee (parse_tee spec)
      else if text_eq (first_word spec) (codes "wc")
      then inr (wc 0)
      else inl (codes "unknown pipe '" ++ (first_word spec ++ codes "'. try grep, tee, or wc"))

  unfoldable pub parse_all : List Text → Text ⊎ List (Stage File)
  unfolding parse
  parse_all [] = inr []
  parse_all (spec ∷ specs) = elim (parse spec) [
    | inl e ↦ inl e
    | inr stage ↦ elim (parse_all specs) [ inl e ↦ inl e | inr stages ↦ inr (stage ∷ stages) ]
  ]

  unfoldable pub new : Sink → List Text → Text ⊎ Pipeline File Sink
  unfolding parse_all
  new inner specs = elim (parse_all specs) [
    | inl e ↦ inl e
    | inr stages ↦ inr (record { inner = inner; stages = stages; buf = [] })
  ]

  -- `Stage::feed`.
  unfoldable pub feed : Stage File → Text → Option (Stage File × List Text)
  unfolding Grep.feed
  feed (grep g) line = some (grep (Grep.feed g line).0, (Grep.feed g line).1)
  feed (tee file) line = and_then (io.write_file file line) (λ file'. some (tee file', line ∷ []))
  feed (wc lines) line = some (wc (succ_u64 lines), [])

  -- `Stage::finish`.
  unfoldable pub finish : Stage File → Option (Stage File × List Text)
  unfolding Grep.finish
  finish (grep g) = some (grep g, Grep.finish g)
  finish (tee file) = and_then (io.flush_file file) (λ file'. some (tee file', []))
  finish (wc lines) = some (wc lines, to_text lines ∷ [])

  -- The lines that reach a stage, one by one.
  unfoldable pub through : Stage File → List Text → Option (Stage File × List Text)
  through s [] = some (s, [])
  through s (line ∷ lines) =
      and_then (feed s line)
        (λ (s1, out1). and_then (through s1 lines) (λ (s2, out2). some (s2, out1 ++ out2)))

  -- The loop over the stages in `emit_line`.
  unfoldable pub pass : List (Stage File) → List Text → Option (List (Stage File) × List Text)
  pass [] lines = some ([], lines)
  pass (s ∷ ss) lines =
      and_then (through s lines)
        (λ (s1, next). and_then (pass ss next) (λ (ss1, out). some (s1 ∷ ss1, out)))

  -- The loop over the stages in `finish`: each gets the lines that the one in front of it has left,
  -- and then finishes.
  unfoldable pub pass_last : List (Stage File) → List Text → Option (List (Stage File) × List Text)
  pass_last [] lines = some ([], lines)
  pass_last (s ∷ ss) lines = and_then (through s lines) (λ (s1, next).
      and_then (finish s1)
        (λ (s2, last). and_then (pass_last ss (next ++ last)) (λ (ss1, out). some (s2 ∷ ss1, out))))

  unfoldable pub write_lines : Sink → List Text → Option Sink
  write_lines sink [] = some sink
  write_lines sink (l ∷ lines) = and_then (io.write_sink sink l) (λ sink'. write_lines sink' lines)

  unfoldable pub emit_line : Text → Pipeline File Sink → Option (Pipeline File Sink)
  unfolding pass write_lines
  emit_line line p = and_then (pass p.stages (line ∷ [])) (λ (stages', out).
      and_then (write_lines p.inner out)
        (λ inner'. some (record p { inner = inner'; stages = stages' })))

  -- The end of `finish`.
  unfoldable pub close : Pipeline File Sink → Option (Pipeline File Sink)
  unfolding pass_last write_lines
  close p = and_then (pass_last p.stages []) (λ (stages', out).
      and_then (write_lines p.inner out) (λ inner'.
        and_then (io.flush_sink inner')
          (λ inner''. some (record p { inner = inner''; stages = stages' }))))

  unfoldable pub finish_all : Pipeline File Sink → Option (Pipeline File Sink)
  unfolding emit_line close trim_end_matches
  finish_all p =
      if is_empty p.buf
      then close p
      else and_then
          (emit_line (trim_end_matches (λ c. c == b'\r') (io.decode p.buf)) (record p { buf = [] }))
          close

-- `self.buf.iter().position(|&b| b == b'\n')`, with the line in front of it and what follows it.
unfoldable pub cut_line : List ℕ → Option (List ℕ × List ℕ)
cut_line [] = none
cut_line (b ∷ bytes) =
    if b == b'\n'
    then some ([], bytes)
    else and_then (cut_line bytes) (λ (line, rest). some (b ∷ line, rest))

-- `if line.last() == Some(&b'\r') { line.pop(); }`.
unfoldable pub drop_cr : List ℕ → List ℕ
drop_cr [] = []
drop_cr (b ∷ []) = if b == b'\r' then [] else b ∷ []
drop_cr (b ∷ c ∷ bytes) = b ∷ drop_cr (c ∷ bytes)

module _ {File Sink : Type 0} (io : Io File Sink) where
  -- The loop of `write`; a line goes with each round, so the bytes there are bound the rounds.
  unfoldable pub write_fuel : ℕ → Pipeline File Sink → Option (Pipeline File Sink)
  unfolding cut_line drop_cr emit_line
  write_fuel zero p = some p
  write_fuel (suc fuel) p = elim (cut_line p.buf) [
    | none ↦ some p
    | some (line, rest) ↦
        and_then (emit_line io (io.decode (drop_cr line)) (record p { buf = rest }))
          (write_fuel fuel)
  ]

  unfoldable pub write : List ℕ → Pipeline File Sink → Option (Pipeline File Sink)
  unfolding write_fuel
  write bytes p = let all = p.buf ++ bytes in write_fuel (length all) (record p { buf = all })
