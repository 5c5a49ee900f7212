-- ===== src/Values.antt =====
-- rthas/src/lib.rs: how argument and return values are classified.
use rthas.Prelude.{Bool, ◌||◌, Text, codes, text_eq, starts_with}

abbrev pub early_return : Text
early_return = codes "<early-return>"

unfoldable pub looks_like_err : Text → Bool
unfolding starts_with
looks_like_err ret =
    starts_with ret (codes "Err(") || starts_with ret (codes "Err ") || text_eq ret early_return
