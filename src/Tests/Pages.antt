-- ===== src/Tests/Pages.antt =====
-- The configuration page on concrete secrets.
use cali_go_stack.Base.{◌≡◌, refl, true, false, [], none, codes, lookup}
use cali_go_stack.Config.Load.{pos}
use cali_go_stack.Queue.Chan.{Bytes}
use cali_go_stack.Config.Mask.{TextLib, masked, mask_value, safe_value, env_from_key}
use cali_go_stack.Config.Page.{Secrets, Settings, build_page_data}
use cali_go_stack.Config.Hiding.{page_hides}

-- No text is a URL here, and all are valid.
abbrev lib : TextLib
lib = record {
  valid_utf8 = λ v. true;
  Url = Bytes;
  parse = λ v. none;
  has_user = λ u. false;
  set_user = λ name u. u;
  url_text = λ u. u;
  itoa = λ n. codes "1";
}

masked_computed : masked lib (codes "secret-token") ≡ codes "se***en"
unfolding masked
masked_computed = refl

-- The key of the language model, masked, and a key that no rule names.
policy_computed :
    (safe_value "ai" "APIKey" ≡ false)
    × (env_from_key "ai" "APIKey" ≡ "GOAI_API_KEY")
    × (mask_value lib "new" "Field" (codes "0123456789") ≡ codes "01***89")
unfolding safe_value env_from_key mask_value masked lookup
policy_computed = (refl, refl, refl)

abbrev settings : Settings
settings = record {
  app_name = codes "app";
  build_label = [];
  build_commit = [];
  host = [];
  log_level = [];
  port = pos 1;
  dagnats_port = pos 0;
  dev = true;
  nats_enabled = true;
  dagnats_enabled = false;
  offline_enabled = true;
  db_path = [];
  data_dir = [];
  base_url = [];
  model = [];
  nats_store_dir = [];
  dagnats_http_addr = [];
  dagnats_store_dir = [];
  entity_store = codes "pb";
}

abbrev secrets : Bytes → Secrets
secrets token = record {
  encryption_key = codes "0123456789abcdef0123456789abcdef";
  admin_token = token;
  api_key = [];
  leaf_node_url = [];
  age_secret_key = codes "age";
}

page_hides_example :
    build_page_data lib settings (secrets (codes "hunter2"))
    ≡ build_page_data lib settings (secrets (codes "letmein"))
unfolding masked
page_hides_example =
    page_hides lib settings (secrets (codes "hunter2")) (secrets (codes "letmein")) refl refl refl
      refl refl refl
