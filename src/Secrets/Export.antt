-- ===== src/Secrets/Export.antt =====
-- What the environment holds after the file of secrets is exported.
use cali_go_stack.Base.{
  ◌≡◌, refl, ◌||◌, false, Option, none, some, List, [], ◌∷◌, bytes_eq, codes, arith, if◌then◌else◌,
}
use cali_go_stack.Queue.Chan.{Bytes}
use cali_go_stack.Secrets.{
  EnvLine, Env, getenv, has_nul, set_env, export, is_empty, Machine, decrypted, load,
}
use cali_go_stack.Secrets.Lines.{Written, AllWritable, written, entries, parse_env_lines-written}

-- The value of the last line with the key.
unfoldable pub last_value : Bytes → List EnvLine → Option Bytes
last_value key [] = none
last_value key (l ∷ ls) = elim (last_value key ls) [
  | none ↦ if bytes_eq l.key key then some l.value else none
  | some v ↦ some v
]

abbrev pub NoNul : List EnvLine → Type 0
NoNul [] = Unit
NoNul (l ∷ ls) = ((has_nul l.key || has_nul l.value) ≡ false) × NoNul ls

abbrev pub or_else : Option Bytes → Option Bytes → Option Bytes
or_else none held = held
or_else (some v) held = some v

export_lem :
    (key : Bytes) (ls : List EnvLine) (env : Env)
    → NoNul ls
    → export ls env key ≡ or_else (last_value key ls) (env key)
unfolding export last_value set_env
export_lem key [] env h = refl
export_lem key (l ∷ ls) env (h, hs) = ground (arith, export_lem key ls (set_env l env) hs, h)

-- Where the key of age is set and the file decrypts to entries, comments and blank lines without a
-- zero byte: a variable has afterwards the value of its last entry in the file, whatever the
-- process had for it, and every variable that the file does not name is as before.
pub secrets_win :
    (m : Machine) (project : Bytes) (env : Env) (ws : List Written) (key : Bytes)
    → is_empty project ≡ false
    → is_empty (getenv env (codes "AGE_SECRET_KEY")) ≡ false
    → decrypted m project (getenv env (codes "AGE_SECRET_KEY")) ≡ some (written ws)
    → AllWritable ws
    → NoNul (entries ws)
    → load m project env key ≡ or_else (last_value key (entries ws)) (env key)
unfolding load
secrets_win m project env ws key named keyed opened writable clean =
    rw (named, keyed, opened, parse_env_lines-written ws writable)
      (export_lem key (entries ws) env clean)
