-- ===== src/Agent/Access.antt =====
-- The verbs of rthas/src/agent.rs and who may use them: the arms of `dispatch_verb`, and `auth`.
pub mod Dispatch
pub mod Verbs
pub mod Piped
pub mod Guard
pub mod Serving
pub mod Connection
pub mod Secrets
use rthas.Prelude.{
  ℕ, zero, suc, ◌+◌, ◌/◌, ◌%◌, max, bit_or, Bool, true, false, not, ◌&&◌, Option, none, some, List,
  [], ◌∷◌, ◌++◌, ltb, ◌==◌, if◌then◌else◌, length, get_elem?, any, Text, codes, text_eq, is_empty,
}
use rthas.Prelude.{bit_xor, or_else}
use rthas.Agent.Args.{Args, get, or_empty}

-- The arms of the match on the verb.
pub data Command : Type 0 where
  help : Command
  ping : Command
  auth : Command
  pwd : Command
  cat : Command
  echo : Command
  pipe_only : Command
  list : Command
  turn_on : Command
  turn_off : Command
  trace : Command
  watch : Command
  stack : Command
  dashboard : Command
  thread : Command
  profiler : Command
  stats : Command
  top : Command
  monitor : Command
  time_tunnel : Command
  sysenv : Command
  jvm : Command
  sysprop : Command
  memory : Command
  version : Command
  session : Command
  options : Command
  job_table : Command
  kill : Command
  no_job_control : Command
  past_commands : Command
  cls : Command
  keymap : Command
  base64 : Command
  reset : Command
  stop : Command
  clear : Command
  quit : Command
  unknown : Command

abbrev verbs : List (Text × Command)
verbs =
    (codes "help", help)
    ∷ (codes "?", help)
    ∷ (codes "ping", ping)
    ∷ (codes "auth", auth)
    ∷ (codes "pwd", pwd)
    ∷ (codes "cat", cat)
    ∷ (codes "echo", echo)
    ∷ (codes "grep", pipe_only)
    ∷ (codes "tee", pipe_only)
    ∷ (codes "wc", pipe_only)
    ∷ (codes "list", list)
    ∷ (codes "sm", list)
    ∷ (codes "on", turn_on)
    ∷ (codes "off", turn_off)
    ∷ (codes "trace", trace)
    ∷ (codes "watch", watch)
    ∷ (codes "stack", stack)
    ∷ (codes "dashboard", dashboard)
    ∷ (codes "thread", thread)
    ∷ (codes "profiler", profiler)
    ∷ (codes "stats", stats)
    ∷ (codes "top", top)
    ∷ (codes "monitor", monitor)
    ∷ (codes "tt", time_tunnel)
    ∷ (codes "sysenv", sysenv)
    ∷ (codes "jvm", jvm)
    ∷ (codes "runtime", jvm)
    ∷ (codes "sysprop", sysprop)
    ∷ (codes "memory", memory)
    ∷ (codes "version", version)
    ∷ (codes "session", session)
    ∷ (codes "options", options)
    ∷ (codes "vmoption", options)
    ∷ (codes "jobs", job_table)
    ∷ (codes "kill", kill)
    ∷ (codes "fg", no_job_control)
    ∷ (codes "bg", no_job_control)
    ∷ (codes "history", past_commands)
    ∷ (codes "cls", cls)
    ∷ (codes "keymap", keymap)
    ∷ (codes "base64", base64)
    ∷ (codes "reset", reset)
    ∷ (codes "stop", stop)
    ∷ (codes "clear", clear)
    ∷ (codes "quit", quit)
    ∷ (codes "exit", quit)
    ∷ (codes "q", quit)
    ∷ []

abbrev pub command_in : Text → List (Text × Command) → Command
command_in verb [] = unknown
command_in verb ((v, c) ∷ rest) = if text_eq verb v then c else command_in verb rest

unfoldable pub command_of : Text → Command
command_of verb = command_in verb verbs

-- The arms that end the connection.
abbrev pub keeps_open : Command → Bool
keeps_open stop = false
keeps_open quit = false
keeps_open other = true

unfoldable pub auth_free : Text → Bool
auth_free verb = any (text_eq verb) (
    codes "auth"
    ∷ codes "help"
    ∷ codes "?"
    ∷ codes "ping"
    ∷ codes "quit"
    ∷ codes "exit"
    ∷ codes "q"
    ∷ [])

-- RTHAS_USERNAME and RTHAS_PASSWORD.
pub record Env : Type 0 where
  pub username : Option Text
  pub password : Option Text

abbrev pub non_empty : Option Text → Option Text
non_empty none = none
non_empty (some s) = if is_empty s then none else some s

unfoldable pub password_configured : Env → Bool
password_configured env = elim env.password [ none ↦ false | some s ↦ not (is_empty s) ]

unfoldable pub expected_username : Env → Text
expected_username env = elim env.username [ none ↦ codes "rthas" | some s ↦ s ]

unfoldable pub expected_password : Env → Option Text
expected_password env = non_empty env.password

-- `as_bytes`: UTF-8.
unfoldable pub char_bytes : ℕ → List ℕ
char_bytes c =
    if ltb c 128
    then c ∷ []
    else if ltb c 2048
    then (192 + c / 64) ∷ (128 + c % 64) ∷ []
    else if ltb c 65536
    then (224 + c / 4096) ∷ (128 + c / 64 % 64) ∷ (128 + c % 64) ∷ []
    else (240 + c / 262144) ∷ (128 + c / 4096 % 64) ∷ (128 + c / 64 % 64) ∷ (128 + c % 64) ∷ []

unfoldable pub as_bytes : Text → List ℕ
unfolding char_bytes
as_bytes [] = []
as_bytes (c ∷ s) = char_bytes c ++ as_bytes s

-- `*bytes.get(i).unwrap_or(&0)`.
abbrev pub byte_at : ℕ → List ℕ → ℕ
byte_at i bytes = elim (get_elem? bytes i) [ none ↦ 0 | some b ↦ b ]

-- `remaining` rounds from the index `i` on.
unfoldable pub diff_loop : ℕ → ℕ → List ℕ → List ℕ → ℕ → ℕ
diff_loop zero i a b diff = diff
diff_loop (suc remaining) i a b diff =
    diff_loop remaining (suc i) a b (bit_or diff (bit_xor (byte_at i a) (byte_at i b)))

unfoldable pub bytes_match : List ℕ → List ℕ → Bool
unfolding diff_loop
bytes_match a b = diff_loop (max (length a) (length b)) 0 a b (bit_xor (length a) (length b)) == 0

unfoldable pub secrets_match : Text → Text → Bool
unfolding as_bytes bytes_match
secrets_match a b = bytes_match (as_bytes a) (as_bytes b)

-- The user and the password that `auth` is given.
unfoldable pub given_user : Args → Text
unfolding get
given_user args =
    let user = or_empty (or_else (get args (codes "username")) (get args (codes "user"))) in
    if is_empty user then codes "rthas" else user

unfoldable pub given_password : Args → Text
unfolding get
given_password args =
    or_empty (or_else (non_empty (get args (codes "password"))) (get_elem? args.pos 1))

-- The flag `authed` after `auth`.
unfoldable pub cmd_auth : Env → Args → Bool
unfolding expected_password given_user given_password expected_username secrets_match
cmd_auth env args = elim (expected_password env) [
  | none ↦ true
  | some want ↦
      secrets_match (given_user args) (expected_username env)
      && secrets_match (given_password args) want
]
