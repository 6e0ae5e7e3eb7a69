-- ===== src/Store/Pb/Clear.antt =====
-- ClearCompleted removes exactly the caller's completed todos.
use cali_go_stack.Base.{
  ℕ, ◌+◌, ◌≡◌, sym, ap, ◌∙◌, String, true, false, Option, some, none, List, [], ◌∷◌, arith, ◌==◌,
  ◌&&◌, ◌||◌, ◌⊎◌, eq_iff, Bool-cases, Option-cases, inl, inr, length, if◌then◌else◌,
}
use mathlib.Core.Bool.{false≢true}
use cali_go_stack.Store.Entity.{ok}
use cali_go_stack.Store.App.{App, Laws, Condition, Record, has_id, matches, All}
use cali_go_stack.Store.Pb.{delete_all, clear_completed, clear_filter}

-- What is left of a record after a clear by `caller`.
abbrev pub cleared : String → Option Record → Option Record
cleared caller none = none
cleared caller (some r) =
    if r.completed && (caller == "" || r.owner == caller) then none else some r

module _ (a : App) (laws : Laws a) where
  open a use {Db, find_by_id}

  -- A loop that ends without an error has deleted every record of the list, and no other.
  pub find-delete_all :
      (rs : List Record) (n m : ℕ) (db db' : Db) (id : String)
      → delete_all a rs n db ≡ (ok m, db')
      → (find_by_id db' id ≡ (if has_id id rs then none else find_by_id db id))
        × (m ≡ n + length rs)
  unfolding delete_all
  find-delete_all [] n m db db' id done = ground arith
  find-delete_all (r ∷ rs) n m db db' id done = elim (Option-cases (a.delete db r)) [
    | inl failed ↦ absurd (ground (arith, failed))
    | inr (next, deleted) ↦ ground (
      arith,
      deleted,
      laws.find_delete db next r id deleted,
      find-delete_all rs (n + 1) m next db' id,
    )
  ]

  -- A record found in a query's result is stored, and matches.
  has_id-found :
      (db : Db) (cs : List Condition) (rs : List Record) (id : String)
      → All (λ r. (find_by_id db r.id ≡ some r) × (matches r cs ≡ true)) rs
      → has_id id rs ≡ true
      → (r : Record) × (find_by_id db id ≡ some r) × (matches r cs ≡ true)
  has_id-found db cs [] id s h = absurd (false≢true h)
  has_id-found db cs (r ∷ rs) id s h = elim (Bool-cases (r.id == id)) [
    | inl same ↦ (r, rw (sym ((eq_iff r.id id).0 same)) s.0.0, s.0.1)
    | inr other ↦ has_id-found db cs rs id s.1 (rw other at h)
  ]

  -- Whether a query's result holds an id: exactly if its record matches.
  pub has_id-filter :
      (db : Db) (cs : List Condition) (rs : List Record) (id : String) (r : Record)
      → a.find_by_filter db cs ≡ some rs
      → find_by_id db id ≡ some r
      → has_id id rs ≡ matches r cs
  has_id-filter db cs rs id r queried found =
      let same : r.id ≡ id = laws.find_id db id r found in
      elim (Bool-cases (matches r cs)) [
        | inl hit ↦
            let stored : find_by_id db r.id ≡ some r = ap (find_by_id db) same ∙ found in
            ap (λ j. has_id j rs) (sym same)
            ∙ laws.filter_complete db cs rs r queried stored hit
            ∙ sym hit
        | inr miss ↦ rw miss (not_held miss (Bool-cases (has_id id rs)))
      ]
    where
      not_held :
          matches r cs ≡ false
          → (has_id id rs ≡ true) ⊎ (has_id id rs ≡ false)
          → has_id id rs ≡ false
      not_held miss (inr absent) = absent
      not_held miss (inl held) =
          let (r', found', hit) =
            has_id-found db cs rs id (laws.filter_sound db cs rs queried) held in
          cc (found', found, hit, miss)

  filter-cleared :
      (caller : String) (r : Record)
      → matches r (clear_filter a caller) ≡ (r.completed && (caller == "" || r.owner == caller))
  filter-cleared caller r = ground (arith, eq_iff caller "")

  -- A clear that succeeds deletes the completed todos of the caller and leaves every other record
  -- as it was. A caller without an identity clears the completed todos of all owners.
  pub find-clear_completed :
      (db db' : Db) (caller id : String) (m : ℕ)
      → clear_completed a caller db ≡ (ok m, db')
      → find_by_id db' id ≡ cleared caller (find_by_id db id)
  unfolding clear_completed
  find-clear_completed db db' caller id m done =
      elim (Option-cases (a.find_by_filter db (clear_filter a caller))) [
        | inl failed ↦ absurd (ground (arith, failed))
        | inr (rs, queried) ↦
            let loop : delete_all a rs 0 db ≡ (ok m, db') = ground (arith, queried) in
            let deleted = (find-delete_all rs 0 m db db' id loop).0 in
            elim (Option-cases (find_by_id db id)) [
              | inl missing ↦ ground (arith, deleted, missing)
              | inr (r, found) ↦ ground (
                arith,
                deleted,
                found,
                has_id-filter db (clear_filter a caller) rs id r queried found,
                filter-cleared caller r,
              )
            ]
      ]
