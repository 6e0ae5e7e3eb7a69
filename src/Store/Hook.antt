-- ===== src/Store/Hook.antt =====
-- db/idempotency_hook.go: the hook on a request that creates a record. `none` is the error of the
-- create itself.
use cali_go_stack.Base.{◌≡◌, ◌≢◌, Option, some, none, [], ◌∷◌, arith, ◌==◌, eq_iff, if◌then◌else◌}
use cali_go_stack.Store.App.{App, Laws, Record, idem_key_is, owner_is}

-- e.Next() is the create.
unfoldable pub on_create_request : (a : App) → Record → a.Db → Option (Record × a.Db)
on_create_request a r db =
    if r.idem_key == ""
    then a.insert db r
    else if r.owner == ""
    then a.insert db r
    else elim (a.find_first db (idem_key_is r.idem_key ∷ owner_is r.owner ∷ [])) [
      | none ↦ a.insert db r
      | some existing ↦ some (existing, db)
    ]

-- A create request with a key and an owner, for which the query finds a stored record with both,
-- is answered with that record and stores nothing; the same record saved without the request
-- would be refused.
pub hook_answers :
    (a : App) (laws : Laws a) (r old : Record) (db : a.Db)
    → r.idem_key ≢ ""
    → r.owner ≢ ""
    → a.find_first db (idem_key_is r.idem_key ∷ owner_is r.owner ∷ []) ≡ some old
    → (on_create_request a r db ≡ some (old, db))
      × (a.find_by_id db old.id ≡ some old)
      × (a.insert db r ≡ none)
unfolding on_create_request
hook_answers a laws r old db keyed owned found =
    let (held, hit) =
      laws.find_first_sound db (idem_key_is r.idem_key ∷ owner_is r.owner ∷ []) old found in
    let key : old.idem_key ≡ r.idem_key = ground (arith, hit, eq_iff old.idem_key r.idem_key) in
    let own : old.owner ≡ r.owner = ground (arith, hit, eq_iff old.owner r.owner) in
    (
      ground (arith, found, eq_iff r.idem_key "", eq_iff r.owner ""),
      held,
      laws.insert_unique db r old held key own keyed,
    )
