-- ===== src/Config/Handler.antt =====
-- features/config/handler.go: the answer to GET /config, in the order in which it is written.
use cali_go_stack.Base.{◌≡◌, refl, String, Option, none, some, List, [], ◌∷◌, ◌++◌}
use cali_go_stack.Auth.Guard.{require_auth}
use cali_go_stack.Config.Mask.{TextLib}
use cali_go_stack.Config.Page.{Settings, Secrets, PageData, build_page_data}

pub data Written : Type 0 where
  login : Written
  config_page : PageData → (email : String) → Written

abbrev email_of : Option String → String
email_of none = ""
email_of (some email) = email

-- handleIndex; the user is the email of the session.
unfoldable pub handle_index : TextLib → Settings → Secrets → Option String → List Written
unfolding require_auth
handle_index lib c s user =
    require_auth login user ++ config_page (build_page_data lib c s) (email_of user) ∷ []

-- A request without a session gets the page of the configuration behind the redirect, the one that
-- a user without an email gets.
pub guest_sees_config :
    (lib : TextLib) (c : Settings) (s : Secrets)
    → handle_index lib c s none ≡ login ∷ handle_index lib c s (some "")
unfolding handle_index
guest_sees_config lib c s = refl
