-- ===== src/Auth/Guard.antt =====
-- features/auth/auth.go: RequireAuthOrRedirect as the handlers of pages call it.
use cali_go_stack.Base.{Option, none, some, List, [], ◌∷◌}

-- What is written before the caller goes on: without a user the redirect. The error that comes back is that
-- of e.Redirect or of e.Next(), which is nil either way, so that the caller's test of it never holds.
unfoldable pub require_auth {ℓ κ} : {U : Type ℓ} {A : Type κ} → (redirect : A) → Option U → List A
require_auth redirect none = redirect ∷ []
require_auth redirect (some u) = []
