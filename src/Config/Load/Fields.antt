-- ===== src/Config/Load/Fields.antt =====
-- Where the fields of the configuration come from.
use cali_go_stack.Base.{
  ◌≡◌, refl, ap, List, [], ◌++◌, ◌∷◌, not, false, Option, none, some, codes, bytes_eq, String,
  Without,
}
use cali_go_stack.Queue.Chan.{Bytes}
use cali_go_stack.Secrets.{Env, Machine, getenv, is_empty, decrypted}
use cali_go_stack.Secrets.Lines.{Written, AllWritable, written, entries}
use cali_go_stack.Secrets.Export.{NoNul, last_value, or_else, secrets_win}
use cali_go_stack.Secrets
use cali_go_stack.Config.Load.{load, config_of, app_name_of, base_name, default_app_name, slash}

abbrev held : Option Bytes → Bytes
held o = elim o [ none ↦ [] | some v ↦ v ]

-- The value of a variable once the file's entries are exported over the process's.
abbrev pub file_or_env : List Written → Env → String → Bytes
file_or_env ws env key = held (or_else (last_value (codes key) (entries ws)) (env (codes key)))

module _ (m : Machine) (executable : Option Bytes) (env : Env) (ws : List Written)
    (named : is_empty (app_name_of executable env) ≡ false)
    (keyed : is_empty (getenv env (codes "AGE_SECRET_KEY")) ≡ false)
    (opened : decrypted m (app_name_of executable env) (getenv env (codes "AGE_SECRET_KEY"))
      ≡ some (written ws))
    (writable : AllWritable ws) (clean : NoNul (entries ws)) where
  value_lem :
      (key : String)
      → getenv (Secrets.load m (app_name_of executable env) env) (codes key)
        ≡ file_or_env ws env key
  value_lem key = ap held (
      secrets_win m (app_name_of executable env) env ws (codes key) named keyed opened writable
        clean)

  -- Where the file of secrets of the application decrypts to entries, comments and blank lines without
  -- a zero byte: the admin token, the keys and the mode are those of the file's last entries,
  -- whatever the process had for them, and the process's where the file has none; the
  -- application's name is found before, so that the file does not change it.
  pub load-file_or_env :
      let c = (load m executable env).0 in
      (c.app_name ≡ app_name_of executable env)
      × (c.admin_token ≡ file_or_env ws env "ADMIN_UNLOCK_TOKEN")
      × (c.api_key ≡ file_or_env ws env "GOAI_API_KEY")
      × (c.encryption_key ≡ file_or_env ws env "ENCRYPTION_KEY")
      × (c.dev ≡ not (bytes_eq (file_or_env ws env "ENVIRONMENT") (codes "production")))
  unfolding load config_of
  load-file_or_env = (
    refl,
    value_lem "ADMIN_UNLOCK_TOKEN",
    value_lem "GOAI_API_KEY",
    value_lem "ENCRYPTION_KEY",
    ap (λ v. not (bytes_eq v (codes "production"))) (value_lem "ENVIRONMENT"),
  )

base_name-none : (name : Bytes) → Without slash name → base_name name ≡ none
unfolding base_name
base_name-none [] h = refl
base_name-none (c ∷ cs) (h, hs) = rw (base_name-none cs hs, h) refl

base_name-path :
    (dir name : Bytes) → Without slash name → base_name (dir ++ (slash ∷ name)) ≡ some name
unfolding base_name
base_name-path [] name h = rw (base_name-none name h) refl
base_name-path (c ∷ cs) name h = rw (base_name-path cs name h) refl

-- The name of a binary at a path is what stands behind the last '/'.
pub default_app_name-path :
    (dir name : Bytes)
    → Without slash name
    → is_empty name ≡ false
    → default_app_name (some (dir ++ (slash ∷ name))) ≡ name
unfolding default_app_name
default_app_name-path [] name h filled = rw (base_name-path [] name h, filled) refl
default_app_name-path (c ∷ cs) name h filled = rw (base_name-path (c ∷ cs) name h, filled) refl
