-- ===== src/Config/Page.antt =====
-- features/config/safe_view.go: the rows of the page. The descriptions and notes, which are constant
-- texts, are left out.
use cali_go_stack.Base.{zero, suc, String, Bool, true, false, List, [], ◌∷◌, codes, if◌then◌else◌}
use cali_go_stack.Queue.Chan.{Bytes}
use cali_go_stack.Config.Load.{ℤ, pos, negsuc}
use cali_go_stack.Config.Mask.{TextLib, is_set, masked, masked_url, env_from_key, mask_value}

pub record Row : Type 0 where
  pub group : String
  pub key : String
  pub env : String
  pub display : Bytes
  pub masked : Bool
  pub bool_only : Bool
  pub set : Bool
  pub url_shape : Bool

pub record Group : Type 0 where
  pub name : String
  pub rows : List Row

pub record PageData : Type 0 where
  pub app_name : Bytes
  pub build_label : Bytes
  pub groups : List Group

-- The secrets among what the page reads: of the configuration and, for the last, of the environment.
pub record Secrets : Type 0 where
  pub encryption_key : Bytes
  pub admin_token : Bytes
  pub api_key : Bytes
  pub leaf_node_url : Bytes
  pub age_secret_key : Bytes

-- The rest of config.Config that the page reads, with GOAI_BASE_URL and GOAI_MODEL of the environment.
pub record Settings : Type 0 where
  pub app_name : Bytes
  pub build_label : Bytes
  pub build_commit : Bytes
  pub host : Bytes
  pub log_level : Bytes
  pub port : ℤ
  pub dagnats_port : ℤ
  pub dev : Bool
  pub nats_enabled : Bool
  pub dagnats_enabled : Bool
  pub offline_enabled : Bool
  pub db_path : Bytes
  pub data_dir : Bytes
  pub base_url : Bytes
  pub model : Bytes
  pub nats_store_dir : Bytes
  pub dagnats_http_addr : Bytes
  pub dagnats_store_dir : Bytes
  pub entity_store : Bytes

abbrev new_row : (group key : String) → Row
new_row group key = record {
  group = group;
  key = key;
  env = env_from_key group key;
  display = [];
  masked = false;
  bool_only = false;
  set = false;
  url_shape = false;
}

unfoldable pub row_bool : (group key : String) → Bool → Row
row_bool group key value =
    if value
    then record (new_row group key) { set = true; display = codes "true" }
    else record (new_row group key) { display = codes "false" }

module _ (lib : TextLib) where
  unfoldable pub row : (group key : String) → Bytes → Row
  row group key value =
      let r = record (new_row group key) { set = is_set value } in
      if is_set value then record r { display = mask_value lib group key value } else r

  unfoldable pub row_secret : (group key : String) → Bytes → Row
  row_secret group key value =
      let r = record (new_row group key) { set = is_set value } in
      if is_set value then record r { masked = true; display = masked lib value } else r

  unfoldable pub row_url : (group key : String) → Bytes → Row
  row_url group key value =
      let r = record (new_row group key) { set = is_set value; url_shape = true } in
      if is_set value then record r { masked = true; display = masked_url lib value } else r

  unfoldable pub int_to_str : ℤ → Bytes
  int_to_str (pos zero) = []
  int_to_str (pos (suc n)) = lib.itoa (pos (suc n))
  int_to_str (negsuc n) = lib.itoa (negsuc n)

  -- BuildPageData on a configuration that is not nil.
  unfoldable pub build_page_data : Settings → Secrets → PageData
  build_page_data c s = record {
    app_name = c.app_name;
    build_label = c.build_label;
    groups =
        record {
          name = "App";
          rows =
              row "app" "AppName" c.app_name
              ∷ row "app" "BuildLabel" c.build_label
              ∷ row "app" "BuildCommit" c.build_commit
              ∷ row "app" "Host" c.host
              ∷ row "app" "Port" (int_to_str c.port)
              ∷ row "app" "LogLevel" c.log_level
              ∷ row_bool "app" "Dev" c.dev
              ∷ [];
        }
        ∷ record {
          name = "Storage";
          rows =
              row "storage" "DBPath" c.db_path
              ∷ row "storage" "DataDir" c.data_dir
              ∷ row_secret "storage" "EncryptionKey" s.encryption_key
              ∷ [];
        }
        ∷ record { name = "Admin"; rows = row_secret "admin" "AdminToken" s.admin_token ∷ [] }
        ∷ record {
          name = "AI (GoAI)";
          rows =
              row_secret "ai" "APIKey" s.api_key
              ∷ row "ai" "BaseURL" c.base_url
              ∷ row "ai" "Model" c.model
              ∷ [];
        }
        ∷ record {
          name = "NATS";
          rows =
              row_bool "nats" "Enabled" c.nats_enabled
              ∷ row "nats" "StoreDir" c.nats_store_dir
              ∷ row_url "nats" "LeafNodeURL" s.leaf_node_url
              ∷ [];
        }
        ∷ record {
          name = "DagNats";
          rows =
              row_bool "dagnats" "Enabled" c.dagnats_enabled
              ∷ row "dagnats" "HTTPAddr" c.dagnats_http_addr
              ∷ row "dagnats" "NATSPort" (int_to_str c.dagnats_port)
              ∷ row "dagnats" "StoreDir" c.dagnats_store_dir
              ∷ [];
        }
        ∷ record {
          name = "Sync";
          rows =
              row_bool "sync" "OfflineEnabled" c.offline_enabled
              ∷ row "sync" "EntityStore" c.entity_store
              ∷ [];
        }
        ∷ record {
          name = "Secrets";
          rows =
              record (new_row "secrets" "AGESecretKey") {
                bool_only = true;
                set = is_set s.age_secret_key;
              }
              ∷ [];
        }
        ∷ [];
  }
