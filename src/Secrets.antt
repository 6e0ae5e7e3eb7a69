-- ===== src/Secrets.antt =====
-- internal/secrets/secrets.go: the file of secrets, read line by line and exported into the
-- environment. age, the user's home and the file system are parameters; texts are bytes.
pub mod Lines
pub mod Export
use cali_go_stack.Base.{
  ℕ, ◌||◌, ◌&&◌, ◌++◌, Bool, true, false, Option, none, some, List, [], ◌∷◌, ◌>>=◌, nat_eq, codes,
  bytes_eq, if◌then◌else◌, is_nil, trim, cut,
}
use cali_go_stack.Queue.Chan.{Bytes}

abbrev pub newline : ℕ
newline = 10

-- '=' and '#'
abbrev pub equals : ℕ
equals = 61

abbrev pub hash : ℕ
hash = 35

abbrev pub is_blank : ℕ → Bool
is_blank c = nat_eq c 32 || nat_eq c 9

abbrev pub is_empty : Bytes → Bool
is_empty = is_nil

-- The first loop of trimSpace is `trim_left`, the second `trim_right`.
abbrev pub trim_space : Bytes → Bytes
trim_space = trim is_blank

pub record EnvLine : Type 0 where
  pub key : Bytes
  pub value : Bytes

abbrev pub entry_of : Option (Bytes × Bytes) → Option EnvLine
entry_of none = none
entry_of (some (before, after)) =
    if is_empty (trim_space before)
    then none
    else some (record { key = trim_space before; value = trim_space after })

abbrev pub parse_trimmed : Bytes → Option EnvLine
parse_trimmed [] = none
parse_trimmed (c ∷ cs) = if nat_eq c hash then none else entry_of (cut equals (c ∷ cs))

unfoldable pub parse_line : Bytes → Option EnvLine
parse_line s = parse_trimmed (trim_space s)

-- `append` where the line is not nil.
abbrev pub keep_line : Option EnvLine → List EnvLine → List EnvLine
keep_line none lines = lines
keep_line (some l) lines = l ∷ lines

-- The loop of parseEnvLines: the line so far, and the bytes to come.
unfoldable pub lines_from : (buf : Bytes) → Bytes → List EnvLine
lines_from buf [] = keep_line (parse_line buf) []
lines_from buf (c ∷ cs) =
    if nat_eq c newline
    then keep_line (parse_line buf) (lines_from [] cs)
    else lines_from (buf ++ c ∷ []) cs

unfoldable pub parse_env_lines : Bytes → List EnvLine
parse_env_lines s = lines_from [] s

-- The environment of the process.
abbrev pub Env : Type 0
Env = Bytes → Option Bytes

abbrev pub getenv : Env → Bytes → Bytes
getenv env key = elim (env key) [ none ↦ [] | some v ↦ v ]

abbrev pub has_nul : Bytes → Bool
has_nul [] = false
has_nul (c ∷ cs) = nat_eq c 0 || has_nul cs

-- os.Setenv refuses a zero byte, and its error is not read; a key of parseLine is neither empty nor
-- holds a '='.
unfoldable pub set_env : EnvLine → Env → Env
set_env l env asked =
    if has_nul l.key || has_nul l.value
    then env asked
    else if bytes_eq l.key asked
    then some l.value
    else env asked

unfoldable pub export : List EnvLine → Env → Env
export [] env = env
export (l ∷ ls) env = export ls (set_env l env)

-- What Load asks of the machine and of age; an error is `none`. `secrets_file` is filepath.Join of the
-- home, ".secrets" and the name.
pub record Machine : Type 1 where
  pub Identity : Type 0
  pub home : Option Bytes
  pub secrets_file : (home name : Bytes) → Bytes
  pub read_file : Bytes → Option Bytes
  pub parse_identity : Bytes → Option Identity
  pub decrypt : Bytes → Identity → Option Bytes

-- The decrypted file, where every step on the way succeeds.
unfoldable pub decrypted : Machine → (project key : Bytes) → Option Bytes
decrypted m project key = do
  home ← m.home
  sealed ← m.read_file (m.secrets_file home (project ++ codes ".env.age"))
  identity ← m.parse_identity key
  m.decrypt sealed identity

abbrev pub exported : Option Bytes → Env → Env
exported none env = env
exported (some text) env = export (parse_env_lines text) env

unfoldable pub load : Machine → (project : Bytes) → Env → Env
load m project env =
    let key = getenv env (codes "AGE_SECRET_KEY") in
    if is_empty project || is_empty key then env else exported (decrypted m project key) env
