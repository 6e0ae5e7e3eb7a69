-- ===== src/Tests/Logins.antt =====
-- A login on concrete accounts.
use cali_go_stack.Base.{
  ltb, ◌≡◌, refl, String, true, Option, none, some, [], ◌∷◌, ◌==◌, if◌then◌else◌, arith,
}
use cali_go_stack.Auth.{
  Accounts, AccountsLaws, Event, continue, skips, handle_password_login, check_password, issue,
  load_auth_from_cookie, cookie_name,
}
use cali_go_stack.Auth.Login.{session_known, values_of}

-- An account is its email, and so is its token.
abbrev emails : Accounts
emails = record {
  Account = String;
  account_id = λ a. a;
  find_by_email = λ collection email. some email;
  has_password = λ a password. password == "pw";
  new_token = λ a. if a == "" then none else some a;
  find_by_token = λ now token. if ltb now 100 then some token else none;
}

emails-laws : AccountsLaws emails
emails-laws = record {
  is_valid = λ token now. ltb now 100;
  token_found = λ a token now minted. ground (arith, minted);
  token_filled = λ a token minted. ground (arith, minted);
}

abbrev elsewhere : String
elsewhere = "https://c.d"

abbrev ann_form : String → String
ann_form field =
    if field == "email" then "ann@a.b" else (if field == "password" then "pw" else elsewhere)

abbrev ann_cookie : String → Option String
ann_cookie name = if name == cookie_name then some "ann@a.b" else none

abbrev posted : Event String
posted = record {
  now = 5;
  path = "/login";
  cookie = λ name. none;
  form_ok = true;
  form = ann_form;
  query = λ name. "";
  auth = none;
}

abbrev returned : Event String
returned = record posted { now = 50; path = "/todo"; cookie = ann_cookie }

-- The form's `next` names another site, and the login sends Ann there.
session_known_example :
    (emails.has_password "ann@a.b" (ann_form "password") ≡ true)
    × ((elsewhere ≡ ann_form "next")
        × ((values_of "pb_auth" (handle_password_login emails true posted true).cookies
              ≡ "ann@a.b" ∷ [])
            × (load_auth_from_cookie emails true returned
                ≡ record { reply = continue (some "ann@a.b"); cookies = []; logins = [] })))
unfolding handle_password_login check_password issue values_of skips emails-laws
session_known_example =
    session_known emails emails-laws true true posted returned "ann@a.b" elsewhere "ann@a.b" refl
      refl refl refl refl
