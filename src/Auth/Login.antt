-- ===== src/Auth/Login.antt =====
-- A session from its login on.
use cali_go_stack.Base.{
  ◌≡◌, refl, sym, String, Bool, true, false, Option, none, some, List, [], ◌∷◌, ◌==◌, if◌then◌else◌,
  arith, subst, ℕ, Bool-cases, inl, inr,
}
use cali_go_stack.Auth.{
  Accounts, AccountsLaws, Cookie, cookie_name, pb_auth_cookie_name, see_other, continue, Answer,
  Event, skips, handle_password_login, check_password, issue, render_login_page_to,
  load_auth_from_cookie, account_of, clear_auth_cookie,
}

-- The values that an answer sets for the cookie of a name.
unfoldable pub values_of : String → List Cookie → List String
values_of name [] = []
values_of name (c ∷ cs) =
    let others = values_of name cs in if c.name == name then c.value ∷ others else others

module _ (pb : Accounts) (laws : AccountsLaws pb) (secure hooked : Bool) where
  open pb use {Account}

  -- What an answer with a redirect and one session cookie says of the account `a`.
  abbrev Issued : Event Account → Account → (next sent : String) → Answer Account → Type 0
  Issued e a next sent answer =
      (next ≡ e.form "next")
      × ((values_of pb_auth_cookie_name answer.cookies ≡ sent ∷ [])
          × (((now : ℕ)
                → pb.find_by_token now sent ≡ (if laws.is_valid sent now then some a else none))
              × ((sent == "") ≡ false)))

  issue_lem :
      (e : Event Account) (a : Account) (next sent : String) (t : Option String)
      → pb.new_token a ≡ t
      → (issue pb secure e hooked a t).reply ≡ see_other next
      → values_of cookie_name (issue pb secure e hooked a t).cookies ≡ sent ∷ []
      → Issued e a next sent (issue pb secure e hooked a t)
  unfolding issue values_of render_login_page_to
  issue_lem e a next sent none minted redirected set = ground (arith, redirected)
  issue_lem e a next sent (some token) minted redirected set = (
    cc (redirected),
    (
      set,
      (
        λ now. ground (arith, set, laws.token_found a token now minted),
        ground (arith, set, laws.token_filled a token minted),
      ),
    ),
  )

  -- What a request with the cookie is answered: its account goes with it while the token is valid, and
  -- afterwards it goes on without and both cookies are cleared.
  abbrev pub Recognised : Event Account → Account → (sent : String) → Type 0
  Recognised later a sent = load_auth_from_cookie pb secure later ≡ (
      if laws.is_valid sent later.now
      then record { reply = continue (some a); cookies = []; logins = [] }
      else record { reply = continue later.auth; cookies = clear_auth_cookie secure; logins = [] })

  load_auth-known :
      (e : Event Account) (a : Account) (sent : String)
      → skips e.path ≡ false
      → e.cookie cookie_name ≡ some sent
      → pb.find_by_token e.now sent ≡ (if laws.is_valid sent e.now then some a else none)
      → (sent == "") ≡ false
      → Recognised e a sent
  unfolding load_auth_from_cookie account_of
  load_auth-known e a sent kept held found filled = elim (Bool-cases (laws.is_valid sent e.now)) [
    | inl valid ↦ simp (kept, held, found, filled, valid)
    | inr over ↦ simp (kept, held, found, filled, over)
  ]

  check_password_lem :
      (e : Event Account) (a : Account) (next sent : String) (right : Bool)
      → pb.has_password a (e.form "password") ≡ right
      → (check_password pb secure e hooked (some a)).reply ≡ see_other next
      → values_of cookie_name (check_password pb secure e hooked (some a)).cookies ≡ sent ∷ []
      → (right ≡ true) × Issued e a next sent (check_password pb secure e hooked (some a))
  unfolding check_password render_login_page_to
  check_password_lem e a next sent false wrong =
      rw (wrong) (λ redirected set. ground (arith, redirected))
  check_password_lem e a next sent true right =
      rw (right)
        (λ redirected set. (refl, issue_lem e a next sent (pb.new_token a) refl redirected set))

  login_reaches :
      (e : Event Account) (next : String) (found : Option Account)
      → pb.find_by_email "users" (e.form "email") ≡ found
      → (handle_password_login pb secure e hooked).reply ≡ see_other next
      → handle_password_login pb secure e hooked ≡ check_password pb secure e hooked found
  unfolding handle_password_login render_login_page_to
  login_reaches e next found held redirected = ground (arith, held, redirected)

  -- A login with an account's email, where PocketBase keeps its laws: it is answered with a
  -- redirect only if the password is the account's; the redirect goes to whatever the form has as
  -- `next`; PocketBase's own cookie gets the same value as the app's; and a later request that sends
  -- that value back, to any path that is not skipped, goes on as the account while PocketBase holds
  -- the token valid, and from then on without it, with both cookies cleared.
  pub session_known :
      (e later : Event Account) (a : Account) (next sent : String)
      → pb.find_by_email "users" (e.form "email") ≡ some a
      → (handle_password_login pb secure e hooked).reply ≡ see_other next
      → values_of cookie_name (handle_password_login pb secure e hooked).cookies ≡ sent ∷ []
      → later.cookie cookie_name ≡ some sent
      → skips later.path ≡ false
      → (pb.has_password a (e.form "password") ≡ true)
        × ((next ≡ e.form "next")
            × ((values_of pb_auth_cookie_name (handle_password_login pb secure e hooked).cookies
                  ≡ sent ∷ [])
                × Recognised later a sent))
  session_known e later a next sent found redirected set held kept =
      let reached = login_reaches e next (some a) found redirected in
      let (right, (at, (native, (known, filled)))) =
        subst
          (λ answer.
            answer.reply ≡ see_other next
            → values_of cookie_name answer.cookies ≡ sent ∷ []
            → (pb.has_password a (e.form "password") ≡ true) × Issued e a next sent answer)
          (sym reached)
          (check_password_lem e a next sent (pb.has_password a (e.form "password")) refl) redirected
          set in
      (right, (at, (native, load_auth-known later a sent kept held (known later.now) filled)))
