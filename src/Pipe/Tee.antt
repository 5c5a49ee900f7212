-- ===== src/Pipe/Tee.antt =====
-- `parse_tee` of rthas/src/pipe.rs.
use rthas.Prelude.{
  Bool, true, false, List, [], ◌∷◌, ◌++◌, ◌||◌, ◌⊎◌, inl, inr, if◌then◌else◌, Text, codes, text_eq,
  is_empty, starts_with, split_whitespace,
}
use rthas.Pipe.Grep.Parse.{without_verb}

-- The loop over the words: whether to append, and the path.
unfoldable pub read_tee : Bool → Text → List Text → Text ⊎ (Bool × Text)
unfolding starts_with
read_tee append path [] = inr (append, path)
read_tee append path (t ∷ ts) =
    let appending = read_tee true path ts in
    let going_on = read_tee append (if is_empty path then t else path) ts in
    if text_eq t (codes "-a") || text_eq t (codes "--append")
    then appending
    else if starts_with t (codes "-")
    then inl (codes "tee: unknown option " ++ t)
    else going_on

abbrev pub with_path : Text ⊎ (Bool × Text) → Text ⊎ (Text × Bool)
with_path (inl e) = inl e
with_path (inr (append, path)) =
    if is_empty path then inl (codes "tee needs a file path") else inr (path, append)

unfoldable pub parse_tee : Text → Text ⊎ (Text × Bool)
unfolding read_tee split_whitespace
parse_tee spec = with_path (read_tee false [] (without_verb (codes "tee") (split_whitespace spec)))
