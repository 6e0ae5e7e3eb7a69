-- ===== src/Handlers/Listing.antt =====
-- Whose todos the list shows, over the PocketBase strategy.
use cali_go_stack.Base.{
  ℕ, ◌≡◌, ◌≢◌, refl, subst, String, true, some, List, [], ◌∷◌, map, arith, eq_iff, Option-cases,
  inl, inr,
}
use cali_go_stack.Store.Entity.{Todo, Result, ok, err}
use cali_go_stack.Store.App.{App, Laws, Record, All, matches}
use cali_go_stack.Store.Pb.{pb_store, from_record, list, list_filter, count}
use cali_go_stack.Handlers.{
  Request, World, Wiring, handle_list, list_found, counted, filter_of, page,
}

owner-list_filter :
    (caller filter : String) (r : Record)
    → caller ≢ ""
    → matches r (list_filter caller filter) ≡ true
    → r.owner ≡ caller
unfolding list_filter
owner-list_filter caller filter r named hit =
    ground (arith, eq_iff caller "", eq_iff r.owner caller)

module _ (a : App) (laws : Laws a) where
  -- The todo is that of a record of the user's.
  abbrev pub Own : String → a.Db → Todo → Type 0
  Own user db t =
      (r : Record) × (a.find_by_id db t.id ≡ some r) × (r.owner ≡ user) × (t ≡ from_record r)

  All-Own :
      (user filter : String) (db : a.Db) (rs : List Record)
      → user ≢ ""
      → All (λ r. (a.find_by_id db r.id ≡ some r) × (matches r (list_filter user filter) ≡ true)) rs
      → All (Own user db) (map from_record rs)
  unfolding from_record
  All-Own user filter db [] named s = tt
  All-Own user filter db (r ∷ rs) named s = (
    (r, s.0.0, owner-list_filter user filter r named s.0.1, refl),
    All-Own user filter db rs named s.1,
  )

  list-Own :
      (user filter : String) (db db' : a.Db) (todos : List Todo)
      → user ≢ ""
      → list a user filter db ≡ (ok todos, db')
      → All (Own user db) todos
  unfolding list
  list-Own user filter db db' todos named done =
      elim (Option-cases (a.find_by_filter db (list_filter user filter))) [
        | inl failed ↦ absurd (ground (arith, failed))
        | inr (rs, queried) ↦
            let same : map from_record rs ≡ todos = ground (arith, queried) in
            subst (All (Own user db)) same (
              All-Own user filter db rs named
                (laws.filter_sound db (list_filter user filter) rs queried))
      ]

  module _ (wiring : Wiring) (r : Request) (w w' : World a.Db) (filter : String) (todos : List Todo)
      (n : ℕ) where
    counted_shows :
        (shown : List Todo) (w1 : World a.Db) (x : Result ℕ × a.Db)
        → counted (pb_store a) wiring r shown w1 x ≡ (page filter todos n, w')
        → shown ≡ todos
    counted_shows shown w1 (ok m, s) done = cc
    counted_shows shown w1 (err e, s) done = cc

    found_shows :
        (x : Result (List Todo) × a.Db)
        → r.user ≢ ""
        → list a r.user (filter_of (pb_store a) wiring r) w.state ≡ x
        → list_found (pb_store a) wiring r w x ≡ (page filter todos n, w')
        → All (Own r.user w.state) todos
    found_shows (err e, s) named listed done = cc
    found_shows (ok shown, s) named listed done =
        subst (All (Own r.user w.state)) (counted_shows shown w (count a r.user s) done)
          (list-Own r.user (filter_of (pb_store a) wiring r) w.state s shown named listed)

    -- Every todo on a page that a user with a session is shown is that of a record of the user's own,
    -- whatever the filter.
    pub list_scoped :
        r.user ≢ ""
        → handle_list (pb_store a) wiring r w ≡ (page filter todos n, w')
        → All (Own r.user w.state) todos
    unfolding handle_list
    list_scoped named done = found_shows _ named refl (ground (arith, eq_iff r.user "", done))
