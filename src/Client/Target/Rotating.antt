-- ===== src/Client/Target/Rotating.antt =====
-- What the flags in front of the command mean to rthas-cli/src/main.rs.
use rthas.Prelude.{
  ◌≡◌, refl, ap, ◌∙◌, Option, some, List, [], ◌∷◌, ◌++◌, append-nil, append_assoc, All, Text, codes,
  strip_prefix, starts_with,
}
use rthas.Agent.Args.{split_once}
use rthas.Client.Target.{
  Target, no_target, rotate_target_flags, Field, sock, sock_dir, pid, password, set_field, next_for,
  value_for, forwarded, kind_of, read_args, parse_target,
}

abbrev pub flag_name : Field → Text
flag_name sock = codes "--sock"
flag_name sock_dir = codes "--sock-dir"
flag_name pid = codes "--pid"
flag_name password = codes "--password"

-- A flag of the client with its value behind it, or glued to it, or an argument for the agent.
pub data Item : Type 0 where
  apart : Field → Text → Item
  glued : Field → Text → Item
  passed : Text → Item

abbrev pub tokens_of : Item → List Text
tokens_of (apart f v) = flag_name f ∷ v ∷ []
tokens_of (glued f v) = (flag_name f ++ b'=' ∷ v) ∷ []
tokens_of (passed a) = a ∷ []

abbrev pub all_tokens : List Item → List Text
all_tokens [] = []
all_tokens (i ∷ items) = tokens_of i ++ all_tokens items

-- A field whose flag may have its value glued to it.
abbrev pub Glues : Field → Type 0
Glues sock_dir = ⊥
Glues other = Unit

abbrev pub Written : Item → Type 0
Written (apart f v) = Unit
Written (glued f v) = Glues f
Written (passed a) = kind_of a ≡ forwarded

abbrev pub applied : Item → Target → Target
applied (apart f v) t = set_field f (some v) t
applied (glued f v) t = set_field f (some v) t
applied (passed a) t = t

abbrev pub all_applied : List Item → Target → Target
all_applied [] t = t
all_applied (i ∷ items) t = all_applied items (applied i t)

abbrev pub passed_on : List Item → List Text
passed_on [] = []
passed_on (passed a ∷ items) = a ∷ passed_on items
passed_on (other ∷ items) = passed_on items

kind_of-name : (f : Field) → kind_of (flag_name f) ≡ next_for f
unfolding kind_of
kind_of-name sock = refl
kind_of-name sock_dir = refl
kind_of-name pid = refl
kind_of-name password = refl

kind_of-glued :
    (f : Field) (v : Text) → Glues f → kind_of (flag_name f ++ b'=' ∷ v) ≡ value_for f (some v)
unfolding kind_of starts_with strip_prefix split_once
kind_of-glued sock v h = refl
kind_of-glued sock_dir v h = elim h [ ]
kind_of-glued pid v h = refl
kind_of-glued password v h = refl

read_args-value :
    (t : Target) (fwd : List Text) (arg : Text) (f : Field) (v : Option Text) (more : List Text)
    → kind_of arg ≡ value_for f v
    → read_args t fwd (arg ∷ more) ≡ read_args (set_field f v t) fwd more
unfolding read_args
read_args-value t fwd arg f v [] e = rw (read_args, e) refl
read_args-value t fwd arg f v (next ∷ more) e = rw (read_args, e) refl

read_args-forwarded :
    (t : Target) (fwd : List Text) (arg : Text) (more : List Text)
    → kind_of arg ≡ forwarded
    → read_args t fwd (arg ∷ more) ≡ read_args t (fwd ++ arg ∷ []) more
unfolding read_args
read_args-forwarded t fwd arg [] e = rw (read_args, e) refl
read_args-forwarded t fwd arg (next ∷ more) e = rw (read_args, e) refl

read_args-next :
    (t : Target) (fwd : List Text) (f : Field) (v : Text) (more : List Text)
    → read_args t fwd (flag_name f ∷ v ∷ more) ≡ read_args (set_field f (some v) t) fwd more
unfolding read_args
read_args-next t fwd f v more = rw (read_args, kind_of-name f) refl

read_args-items :
    (t : Target) (fwd : List Text) (items : List Item) (more : List Text)
    → All Written items
    → read_args t fwd (all_tokens items ++ more)
      ≡ read_args (all_applied items t) (fwd ++ passed_on items) more
read_args-items t fwd [] more all = rw (append-nil fwd) refl
read_args-items t fwd (apart f v ∷ items) more (h, all) =
    read_args-next t fwd f v (all_tokens items ++ more)
    ∙ read_args-items (set_field f (some v) t) fwd items more all
read_args-items t fwd (glued f v ∷ items) more (h, all) =
    read_args-value t fwd (flag_name f ++ b'=' ∷ v) f (some v) (all_tokens items ++ more)
      (kind_of-glued f v h)
    ∙ read_args-items (set_field f (some v) t) fwd items more all
read_args-items t fwd (passed a ∷ items) more (h, all) =
    read_args-forwarded t fwd a (all_tokens items ++ more) h
    ∙ read_args-items t (fwd ++ a ∷ []) items more all
    ∙ ap (λ w. read_args (all_applied items t) w more) (append_assoc fwd (a ∷ []) (passed_on items))

rotate-apart :
    (f : Field) (v cmd : Text) (rest : List Text)
    → rotate_target_flags (flag_name f ∷ v ∷ cmd ∷ rest) ≡ cmd ∷ (rest ++ flag_name f ∷ v ∷ [])
unfolding rotate_target_flags starts_with strip_prefix
rotate-apart sock v cmd rest = refl
rotate-apart sock_dir v cmd rest = refl
rotate-apart pid v cmd rest = refl
rotate-apart password v cmd rest = refl

rotate-glued :
    (f : Field) (v cmd : Text) (rest : List Text)
    → rotate_target_flags ((flag_name f ++ b'=' ∷ v) ∷ cmd ∷ rest)
      ≡ cmd ∷ (rest ++ (flag_name f ++ b'=' ∷ v) ∷ [])
unfolding rotate_target_flags starts_with strip_prefix
rotate-glued sock v cmd rest = refl
rotate-glued sock_dir v cmd rest = refl
rotate-glued pid v cmd rest = refl
rotate-glued password v cmd rest = refl

-- A flag of the client.
abbrev pub Leads : Item → Type 0
Leads (passed a) = ⊥
Leads (apart f v) = Unit
Leads (glued f v) = Glues f

-- A command line with one of the flags of the client in front of the command runs that command with
-- the arguments behind it, and reads that flag after the client's flags among these, which are kept
-- from the agent; all the other arguments go to the agent, in order. The flag is `--pid`, `--sock`,
-- `--sock-dir` or `--password` with its value behind it or, but for `--sock-dir`, glued to it by `=`.
pub parse_target-rotate :
    (lead : Item) (cmd : Text) (items : List Item)
    → Leads lead
    → All Written items
    → (rotate_target_flags (tokens_of lead ++ cmd ∷ all_tokens items)
        ≡ cmd ∷ (all_tokens items ++ tokens_of lead))
      × (parse_target (all_tokens items ++ tokens_of lead)
          ≡ (applied lead (all_applied items no_target), passed_on items))
unfolding parse_target
parse_target-rotate (passed a) cmd items h all = elim h [ ]
parse_target-rotate (apart f v) cmd items h all = (
  rotate-apart f v cmd (all_tokens items),
  read_args-items no_target [] items (flag_name f ∷ v ∷ []) all
      ∙ read_args-next (all_applied items no_target) (passed_on items) f v []
      ∙ unfold read_args in refl,
)
parse_target-rotate (glued f v) cmd items h all = (
  rotate-glued f v cmd (all_tokens items),
  read_args-items no_target [] items ((flag_name f ++ b'=' ∷ v) ∷ []) all
      ∙ read_args-value (all_applied items no_target) (passed_on items) (flag_name f ++ b'=' ∷ v) f
          (some v) [] (kind_of-glued f v h)
      ∙ unfold read_args in refl,
)

-- `--sock-dir=DIR` in front of a command is moved behind it, and then goes to the agent as an
-- argument of the command: the directory is not the one that was asked for.
pub parse_target-sock_dir :
    (dir cmd : Text) (items : List Item)
    → All Written items
    → (rotate_target_flags ((flag_name sock_dir ++ b'=' ∷ dir) ∷ cmd ∷ all_tokens items)
        ≡ cmd ∷ (all_tokens items ++ (flag_name sock_dir ++ b'=' ∷ dir) ∷ []))
      × (parse_target (all_tokens items ++ (flag_name sock_dir ++ b'=' ∷ dir) ∷ []) ≡ (
        all_applied items no_target,
        passed_on items ++ (flag_name sock_dir ++ b'=' ∷ dir) ∷ [],
      ))
unfolding parse_target
parse_target-sock_dir dir cmd items all = (
  rotate-glued sock_dir dir cmd (all_tokens items),
  read_args-items no_target [] items ((flag_name sock_dir ++ b'=' ∷ dir) ∷ []) all
      ∙ read_args-forwarded (all_applied items no_target) (passed_on items)
          (flag_name sock_dir ++ b'=' ∷ dir) [] (goes_on dir)
      ∙ unfold read_args in refl,
)
  where
    goes_on : (d : Text) → kind_of (flag_name sock_dir ++ b'=' ∷ d) ≡ forwarded
    goes_on d = unfold kind_of starts_with strip_prefix in refl
