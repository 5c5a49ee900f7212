-- ===== src/Pipe.antt =====
-- rthas/src/pipe.rs: `<cmd> | grep PATTERN | tee FILE | wc`. This file splits the command line; the
-- children are the stages, `grep` first.
pub mod Splitting
pub mod Grep
pub mod Tee
pub mod Stage
use rthas.Prelude.{
  Bool, ◌||◌, List, [], ◌∷◌, ◌++◌, map, if◌then◌else◌, Text, codes, text_eq, split, trim,
  split_whitespace,
}

unfoldable pub first_word : Text → Text
unfolding split_whitespace
first_word s = elim (split_whitespace s) [ [] ↦ [] | w ∷ ws ↦ w ]

-- The verbs of the stages.
unfoldable pub is_pipe_verb : Text → Bool
unfolding first_word
is_pipe_verb s =
    text_eq (first_word s) (codes "grep")
    || text_eq (first_word s) (codes "tee")
    || text_eq (first_word s) (codes "wc")

-- `last.push('|'); last.push_str(part)` on the last of the stages that are there.
abbrev pub extend_last : Text → List Text → List Text
extend_last part [] = []
extend_last part (p ∷ []) = (p ++ b'|' ∷ part) ∷ []
extend_last part (p ∷ q ∷ ps) = p ∷ extend_last part (q ∷ ps)

-- The loop over the pieces behind the first.
unfoldable pub take_parts : Text → List Text → List Text → Text × List Text
take_parts cmd pipes [] = (cmd, pipes)
take_parts cmd pipes (part ∷ parts) =
    if is_pipe_verb part then take_parts cmd (pipes ++ part ∷ []) parts else elim pipes [
      | [] ↦ take_parts (cmd ++ b'|' ∷ part) [] parts
      | p ∷ ps ↦ take_parts cmd (extend_last part (p ∷ ps)) parts
    ]

abbrev pub split_parts : Text → List Text → Text × List Text
split_parts line [] = (trim line, [])
split_parts line (only ∷ []) = (trim line, [])
split_parts line (cmd ∷ part ∷ parts) = take_parts cmd [] (part ∷ parts)

unfoldable pub split_pipeline : Text → Text × List Text
unfolding take_parts
split_pipeline line = split_parts line (map trim (split b'|' line))
