-- ===== src/Auth.antt =====
-- features/auth/auth.go and wiring.go: the session cookies, the middleware that reads them, and the
-- handlers of /login and /logout. PocketBase's records and tokens are a parameter; the form is as
-- net/http parses it, and rendering the page is left out.
pub mod Guard
pub mod Login
use cali_go_stack.Base.{
  ℕ, ◌≡◌, ◌*◌, String, Bool, true, false, not, ◌&&◌, ◌||◌, Option, none, some, List, [], ◌∷◌, ◌==◌,
  if◌then◌else◌,
}
use text.Mathlib.Text.{starts_with}

-- What the code asks of PocketBase. A token that cannot be minted or is not valid is `none`.
pub record Accounts : Type 1 where
  pub Account : Type 0
  pub account_id : Account → String
  pub find_by_email : (collection email : String) → Option Account
  pub has_password : Account → String → Bool
  pub new_token : Account → Option String
  pub find_by_token : (now : ℕ) → String → Option Account

-- A token is not empty. It is its account's as long as it is valid, that is until it expires or
-- PocketBase takes it back, and no account's from then on.
pub record AccountsLaws (pb : Accounts) : Type 0 where
  pub is_valid : (token : String) → (now : ℕ) → Bool
  pub token_found :
      (a : pb.Account) (token : String) (now : ℕ)
      → pb.new_token a ≡ some token
      → pb.find_by_token now token ≡ (if is_valid token now then some a else none)
  pub token_filled :
      (a : pb.Account) (token : String) → pb.new_token a ≡ some token → (token == "") ≡ false

-- http.Cookie with Path "/", HttpOnly and SameSite=Lax. A MaxAge of -1 is `none`: the cookie goes.
pub record Cookie : Type 0 where
  pub name : String
  pub value : String
  pub secure : Bool
  pub max_age : Option ℕ

abbrev pub cookie_name : String
cookie_name = "gogogo_auth"

abbrev pub pb_auth_cookie_name : String
pb_auth_cookie_name = "pb_auth"

abbrev pub session_max_age_seconds : ℕ
session_max_age_seconds = 7 * 24 * 60 * 60

pub data Reply (A : Type 0) : Type 0 where
  continue : Option A → Reply A
  see_other : (location : String) → Reply A
  login_page : (next message : String) → Reply A

-- What a handler answers, the cookies that it sets, and the ids that the login hook was called with.
pub record Answer (A : Type 0) : Type 0 where
  pub reply : Reply A
  pub cookies : List Cookie
  pub logins : List String

-- The parts of a request that are read, e.Auth, and the time at which it is handled.
pub record Event (A : Type 0) : Type 0 where
  pub now : ℕ
  pub path : String
  pub cookie : String → Option String
  pub form_ok : Bool
  pub form : String → String
  pub query : String → String
  pub auth : Option A

module _ {A : Type 0} where
  -- An answer that sets no cookie and is no login.
  abbrev pub plain : Reply A → Answer A
  plain r = record { reply = r; cookies = []; logins = [] }

abbrev pub set_auth_cookie : (cookie_secure : Bool) (token : String) → List Cookie
set_auth_cookie cookie_secure token =
    record {
      name = cookie_name;
      value = token;
      secure = cookie_secure;
      max_age = some session_max_age_seconds;
    }
    ∷ record {
      name = pb_auth_cookie_name;
      value = token;
      secure = cookie_secure;
      max_age = some session_max_age_seconds;
    }
    ∷ []

abbrev pub clear_auth_cookie : (cookie_secure : Bool) → List Cookie
clear_auth_cookie cookie_secure =
    record { name = cookie_name; value = ""; secure = cookie_secure; max_age = none }
    ∷ record { name = pb_auth_cookie_name; value = ""; secure = cookie_secure; max_age = none }
    ∷ []

-- The paths that LoadAuthFromCookie leaves to PocketBase.
unfoldable pub skips : String → Bool
skips p =
    (p == "/health")
    || (starts_with p "/_/"
        || ((starts_with p "/api/" && not (p == "/api/realtime")) || starts_with p "/static/"))

module _ (pb : Accounts) (cookie_secure : Bool) where
  open pb use {Account}

  -- The account of the session cookie: `none` without one, `some none` where it is not valid.
  unfoldable pub account_of : ℕ → Option String → Option (Option Account)
  account_of now none = none
  account_of now (some value) = if value == "" then none else some (pb.find_by_token now value)

  -- LoadAuthFromCookie, once the account of the cookie is looked up.
  abbrev pub loaded : Event Account → Option (Option Account) → Answer Account
  loaded e none = plain (continue e.auth)
  loaded e (some none) = record {
    reply = continue e.auth;
    cookies = clear_auth_cookie cookie_secure;
    logins = [];
  }
  loaded e (some (some a)) = plain (continue (some a))

  unfoldable pub load_auth_from_cookie : Event Account → Answer Account
  load_auth_from_cookie e =
      if skips e.path
      then plain (continue e.auth)
      else loaded e (account_of e.now (e.cookie cookie_name))

  abbrev pub app_auth : Event Account → Option (Option Account) → Option Account
  app_auth e none = e.auth
  app_auth e (some none) = e.auth
  app_auth e (some (some a)) = some a

  unfoldable pub load_app_auth : Event Account → Answer Account
  load_app_auth e = plain (continue (app_auth e (account_of e.now (e.cookie cookie_name))))

  unfoldable pub require_auth_or_redirect : Option Account → Answer Account
  require_auth_or_redirect (some a) = plain (continue (some a))
  require_auth_or_redirect none = plain (see_other "/login")

  unfoldable pub redirect_if_authed : Option Account → Answer Account
  redirect_if_authed (some a) = plain (see_other "/todo")
  redirect_if_authed none = plain (continue none)

  unfoldable pub render_login_page_to : Event Account → String → Answer Account
  render_login_page_to e message =
      let next = e.query "next" in plain (login_page (if next == "" then "/todo" else next) message)

  -- HandlePasswordLogin once the password is right and a token was asked for.
  unfoldable pub issue : Event Account → (hooked : Bool) → Account → Option String → Answer Account
  issue e hooked a none = render_login_page_to e "Could not issue auth token"
  issue e hooked a (some token) = record {
    reply = see_other (e.form "next");
    cookies = set_auth_cookie cookie_secure token;
    logins = if hooked then pb.account_id a ∷ [] else [];
  }

  unfoldable pub check_password : Event Account → (hooked : Bool) → Option Account → Answer Account
  check_password e hooked none = render_login_page_to e "Wrong email or password"
  check_password e hooked (some a) =
      if not (pb.has_password a (e.form "password"))
      then render_login_page_to e "Wrong email or password"
      else issue e hooked a (pb.new_token a)

  unfoldable pub handle_password_login : Event Account → (hooked : Bool) → Answer Account
  handle_password_login e hooked =
      if not e.form_ok
      then render_login_page_to e "Invalid form submission"
      else (if (e.form "email" == "") || (e.form "password" == "")
          then render_login_page_to e "Email and password required"
          else check_password e hooked (pb.find_by_email "users" (e.form "email")))

  unfoldable pub handle_logout : Answer Account
  handle_logout = record {
    reply = see_other "/login";
    cookies = clear_auth_cookie cookie_secure;
    logins = [];
  }

  abbrev pub expired_message : Option (Option Account) → String
  expired_message (some none) = "Session expired. Please sign in again."
  expired_message none = ""
  expired_message (some (some a)) = ""

  unfoldable pub handle_login_get : Event Account → Answer Account
  handle_login_get e =
      render_login_page_to e (expired_message (account_of e.now (e.cookie cookie_name)))

  abbrev pub get_login : Event Account → Option Account → Answer Account
  get_login e (some a) = plain (see_other "/todo")
  get_login e none = handle_login_get e

  unfoldable pub handle_login_get_with_redirect : Event Account → Answer Account
  handle_login_get_with_redirect e = get_login e e.auth
