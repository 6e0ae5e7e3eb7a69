-- ===== src/Config/Load.antt =====
-- config/config.go: the configuration from the environment. strconv's Atoi and ParseBool are Go's
-- standard library; `int` has 64 bits. `executable` is os.Executable, `none` where it fails.
pub mod Fields
use cali_go_stack.Base.{
  ℕ, zero, suc, ◌+◌, ◌*◌, ◌-◌, ◌^◌, ◌&&◌, ◌||◌, not, String, Bool, true, false, Option, none, some,
  [], ◌∷◌, ltb, leb, nat_eq, codes, bytes_eq, if◌then◌else◌,
}
use cali_go_stack.Queue.Chan.{Bytes}
use cali_go_stack.Secrets.{Env, Machine, getenv, is_empty}
use cali_go_stack.Secrets

-- `negsuc n` is -(n + 1).
pub data ℤ : Type 0 where
  pos : ℕ → ℤ
  negsuc : ℕ → ℤ

abbrev is_digit : ℕ → Bool
is_digit c = leb 48 c && leb c 57

-- The number that the digits write, after those read so far.
unfoldable pub digits_from : ℕ → Bytes → Option ℕ
digits_from n [] = some n
digits_from n (c ∷ cs) =
    let rest = digits_from (n * 10 + (c - 48)) cs in if is_digit c then rest else none

abbrev positive : Option ℕ → Option ℤ
positive none = none
positive (some n) = if ltb n (2 ^ 63) then some (pos n) else none

abbrev minus : ℕ → ℤ
minus zero = pos 0
minus (suc n) = negsuc n

abbrev negative : Option ℕ → Option ℤ
negative none = none
negative (some n) = if leb n (2 ^ 63) then some (minus n) else none

abbrev number_of : Bytes → Option ℕ
number_of [] = none
number_of (c ∷ cs) = digits_from 0 (c ∷ cs)

-- strconv.Atoi
unfoldable pub atoi : Bytes → Option ℤ
atoi [] = none
atoi (c ∷ cs) =
    if nat_eq c 45
    then negative (number_of cs)
    else if nat_eq c 43
    then positive (number_of cs)
    else positive (number_of (c ∷ cs))

-- strconv.ParseBool
unfoldable pub parse_bool : Bytes → Option Bool
parse_bool v =
    if bytes_eq v (codes "1")
      || (bytes_eq v (codes "t")
          || (bytes_eq v (codes "T")
              || (bytes_eq v (codes "true")
                  || (bytes_eq v (codes "TRUE") || bytes_eq v (codes "True")))))
    then some true
    else if bytes_eq v (codes "0")
        || (bytes_eq v (codes "f")
            || (bytes_eq v (codes "F")
                || (bytes_eq v (codes "false")
                    || (bytes_eq v (codes "FALSE") || bytes_eq v (codes "False")))))
    then some false
    else none

unfoldable pub get_env : Env → (key : String) → (fallback : Bytes) → Bytes
get_env env key fallback = let v = getenv env (codes key) in if is_empty v then fallback else v

unfoldable pub env_bool : Env → (key : String) → Bool → Bool
env_bool env key default =
    let v = getenv env (codes key) in
    if is_empty v then default else elim (parse_bool v) [ none ↦ default | some b ↦ b ]

unfoldable pub env_int : Env → (key : String) → ℤ → ℤ
env_int env key default =
    let v = getenv env (codes key) in
    if is_empty v then default else elim (atoi v) [ none ↦ default | some n ↦ n ]

abbrev pub slash : ℕ
slash = 47

-- What stands behind the last '/', all of the text where there is none.
unfoldable pub base_name : Bytes → Option Bytes
base_name [] = none
base_name (c ∷ cs) = elim (base_name cs) [
  | some b ↦ some b
  | none ↦ if nat_eq c slash then some cs else none
]

abbrev or_all : Bytes → Option Bytes → Bytes
or_all all none = all
or_all all (some b) = b

abbrev pub fallback_name : Bytes
fallback_name = codes "gogogo-fullstack-template"

abbrev named : Bytes → Bytes
named base = if is_empty base then fallback_name else base

unfoldable pub default_app_name : (executable : Option Bytes) → Bytes
default_app_name none = fallback_name
default_app_name (some exe) =
    if is_empty exe then fallback_name else named (or_all exe (base_name exe))

abbrev pub default_nats_enabled : Bool
default_nats_enabled = true

abbrev pub default_dag_nats_enabled : Bool
default_dag_nats_enabled = true

abbrev pub default_dag_nats_nats_port : ℤ
default_dag_nats_nats_port = pos 4222

pub record Config : Type 0 where
  pub app_name : Bytes
  pub build_label : Bytes
  pub build_commit : Bytes
  pub host : Bytes
  pub port : ℤ
  pub log_level : Bytes
  pub dev : Bool
  pub db_path : Bytes
  pub data_dir : Bytes
  pub encryption_key : Bytes
  pub admin_token : Bytes
  pub nats_enabled : Bool
  pub nats_store_dir : Bytes
  pub leaf_node_url : Bytes
  pub dagnats_enabled : Bool
  pub dagnats_http_addr : Bytes
  pub dagnats_port : ℤ
  pub dagnats_store_dir : Bytes
  pub offline_sync : Bool
  pub entity_store : Bytes
  pub skin : Bytes
  pub api_key : Bytes

-- Load once the secrets are exported.
unfoldable pub config_of : (app_name : Bytes) → Env → Config
config_of app_name env = record {
  app_name = app_name;
  build_label = get_env env "BUILD_LABEL" (codes "dev");
  build_commit = get_env env "BUILD_COMMIT" [];
  host = get_env env "HOST" (codes "0.0.0.0");
  port = env_int env "PORT" (pos 8080);
  log_level = get_env env "LOG_LEVEL" (codes "INFO");
  dev = not (bytes_eq (getenv env (codes "ENVIRONMENT")) (codes "production"));
  db_path = get_env env "DATABASE_PATH" (codes "data/app.db");
  data_dir = get_env env "DATA_DIR" (codes "data");
  encryption_key = getenv env (codes "ENCRYPTION_KEY");
  admin_token = getenv env (codes "ADMIN_UNLOCK_TOKEN");
  nats_enabled = env_bool env "NATS_ENABLED" default_nats_enabled;
  nats_store_dir = get_env env "NATS_STORE_DIR" (codes "data/nats");
  leaf_node_url = get_env env "NATS_LEAFNODE_URL" [];
  dagnats_enabled = env_bool env "DAGNATS_ENABLED" default_dag_nats_enabled;
  dagnats_http_addr = get_env env "DAGNATS_HTTP_ADDR" (codes "127.0.0.1:8090");
  dagnats_port = env_int env "DAGNATS_NATS_PORT" default_dag_nats_nats_port;
  dagnats_store_dir = get_env env "DAGNATS_STORE_DIR" (codes "data/dagnats");
  offline_sync = env_bool env "OFFLINE_SYNC_ENABLED" true;
  entity_store = get_env env "ENTITY_STORE" (codes "pb");
  skin = get_env env "UI_SKIN" (codes "daisyui");
  api_key = getenv env (codes "GOAI_API_KEY");
}

abbrev pub app_name_of : (executable : Option Bytes) → Env → Bytes
app_name_of executable env =
    let v = getenv env (codes "APP_NAME") in if is_empty v then default_app_name executable else v

-- Load: the configuration, and the environment that it leaves.
unfoldable pub load : Machine → (executable : Option Bytes) → Env → Config × Env
load m executable env =
    let name = app_name_of executable env in
    let env' = Secrets.load m name env in (config_of name env', env')

-- Get: the configuration of the first call, and the environment.
unfoldable pub get : Machine → Option Bytes → Option Config × Env → Config × (Option Config × Env)
get m executable (some c, env) = (c, (some c, env))
get m executable (none, env) = let (c, env') = load m executable env in (c, (some c, env'))
