-- ===== src/Pipe/Splitting.antt =====
-- What `split_pipeline` of rthas/src/pipe.rs makes of a command line: no piece of it is lost.
use rthas.Prelude.{◌≡◌, true, List, [], ◌∷◌, ◌++◌, All, Text}
use rthas.Prelude.{join}
use rthas.Pipe.{is_pipe_verb}

abbrev bar : Text
bar = b'|' ∷ []

-- A stage begins with a piece that has the verb of one.
abbrev pub Staged : Text → Type 0
Staged s = (verb : Text) × (more : Text) × (is_pipe_verb verb ≡ true) × (s ≡ verb ++ more)

-- The pieces taken and those to come.
abbrev Taken : Text → List Text → List Text → Text × List Text → Type 0
Taken cmd pipes parts r =
    (join bar (r.0 ∷ r.1) ≡ join bar ((cmd ∷ pipes) ++ parts)) × All Staged r.1
