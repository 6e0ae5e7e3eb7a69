-- ===== src/Config/Mask.antt =====
-- features/config/mask.go: what is shown of a value. Texts are bytes; utf8.ValidString and the parsing
-- of URLs are Go's standard library, and are parameters.
use cali_go_stack.Base.{
  ℕ, ◌-◌, String, Bool, true, false, not, ◌||◌, Option, none, some, [], ◌∷◌, ◌++◌, ◌==◌, Assoc,
  lookup, length, take, drop, ltb, leb, nat_eq, codes, if◌then◌else◌,
}
use cali_go_stack.Queue.Chan.{Bytes}
use cali_go_stack.Config.Load.{ℤ}

-- net/url and unicode/utf8, as far as they are called.
pub record TextLib : Type 1 where
  pub valid_utf8 : Bytes → Bool
  pub Url : Type 0
  pub parse : Bytes → Option Url
  pub has_user : Url → Bool
  pub set_user : Bytes → Url → Url
  pub url_text : Url → Bytes
  -- strconv.Itoa, on numbers that are not negative
  pub itoa : ℤ → Bytes

abbrev pub short_max : ℕ
short_max = 8

abbrev pub mid_max : ℕ
mid_max = 16

abbrev pub stars : Bytes
stars = codes "***"

-- "…" in UTF-8
abbrev pub ellipsis : Bytes
ellipsis = 226 ∷ 128 ∷ 166 ∷ []

abbrev pub is_set : Bytes → Bool
is_set v = not (nat_eq (length v) 0)

module _ (lib : TextLib) where
  unfoldable pub masked : Bytes → Bytes
  masked v =
      if not (is_set v)
      then []
      else if not (lib.valid_utf8 v)
      then stars
      else if ltb (length v) short_max
      then stars
      else if leb (length v) mid_max
      then take 2 v ++ (stars ++ drop (length v - 2) v)
      else take 4 v ++ (ellipsis ++ drop (length v - 2) v)

  unfoldable pub masked_url : Bytes → Bytes
  masked_url v = if not (is_set v) then [] else elim (lib.parse v) [
    | none ↦ v
    | some u ↦ if lib.has_user u then lib.url_text (lib.set_user stars u) else v
  ]

abbrev pub env_map : Assoc (Assoc String)
env_map =
    ("app", app)
    ∷ ("storage", storage)
    ∷ ("admin", ("AdminToken", "ADMIN_UNLOCK_TOKEN") ∷ [])
    ∷ ("ai", ai)
    ∷ ("nats", nats)
    ∷ ("dagnats", dagnats)
    ∷ ("sync", ("OfflineEnabled", "OFFLINE_SYNC_ENABLED") ∷ ("EntityStore", "ENTITY_STORE") ∷ [])
    ∷ ("secrets", ("AGESecretKey", "AGE_SECRET_KEY") ∷ [])
    ∷ []
  where
    app : Assoc String
    app =
        ("AppName", "APP_NAME")
        ∷ ("BuildLabel", "BUILD_LABEL")
        ∷ ("BuildCommit", "BUILD_COMMIT")
        ∷ ("Host", "HOST")
        ∷ ("Port", "PORT")
        ∷ ("LogLevel", "LOG_LEVEL")
        ∷ ("Dev", "ENVIRONMENT")
        ∷ []

    storage : Assoc String
    storage =
        ("DBPath", "DATABASE_PATH")
        ∷ ("DataDir", "DATA_DIR")
        ∷ ("EncryptionKey", "ENCRYPTION_KEY")
        ∷ []

    ai : Assoc String
    ai = ("APIKey", "GOAI_API_KEY") ∷ ("BaseURL", "GOAI_BASE_URL") ∷ ("Model", "GOAI_MODEL") ∷ []

    nats : Assoc String
    nats =
        ("Enabled", "NATS_ENABLED")
        ∷ ("StoreDir", "NATS_STORE_DIR")
        ∷ ("LeafNodeURL", "NATS_LEAFNODE_URL")
        ∷ []

    dagnats : Assoc String
    dagnats =
        ("Enabled", "DAGNATS_ENABLED")
        ∷ ("HTTPAddr", "DAGNATS_HTTP_ADDR")
        ∷ ("NATSPort", "DAGNATS_NATS_PORT")
        ∷ ("StoreDir", "DAGNATS_STORE_DIR")
        ∷ []

abbrev or_empty : Option String → String
or_empty none = ""
or_empty (some s) = s

-- A group or a key that the table lacks has the empty name.
unfoldable pub env_from_key : (group key : String) → String
env_from_key group key = elim (lookup group env_map) [
  | none ↦ ""
  | some g ↦ or_empty (lookup key g)
]

-- Whether the value of a key is shown as it is.
unfoldable pub safe_value : (group key : String) → Bool
safe_value group key =
    if group == "app"
    then true
    else if group == "storage"
    then (key == "DBPath") || (key == "DataDir")
    else if group == "admin"
    then false
    else if group == "ai"
    then (key == "BaseURL") || (key == "Model")
    else if group == "nats"
    then not (key == "LeafNodeURL")
    else if group == "dagnats"
    then true
    else group == "sync"

unfoldable pub mask_value : TextLib → (group key : String) → Bytes → Bytes
mask_value lib group key v =
    if not (is_set v) then [] else if safe_value group key then v else masked lib v
