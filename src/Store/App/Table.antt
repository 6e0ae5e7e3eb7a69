-- ===== src/Store/App/Table.antt =====
-- A concrete collection in memory: it has the laws that the program relies on.
use cali_go_stack.Base.{
  ◌≡◌, ◌≢◌, refl, sym, subst, ap, ◌∙◌, String, Bool, true, false, not, ◌&&◌, Option, none, some,
  List, [], ◌∷◌, arith, ◌==◌, eq_iff, Assoc, lookup, insert, remove, lookup-insert, lookup-remove,
  lookup_head, lookup_behind, Distinct, insert-Distinct, remove-Distinct, take, if◌then◌else◌,
  Bool-cases, Option-cases, inl, inr,
}
use mathlib.Core.Option.{some-injective}
use cali_go_stack.Store.App.{App, Laws, Record, Stores, Condition, matches, All, has_id}

-- The rows by their ids: no id twice, and each row under its own.
abbrev pub Keyed : Assoc Record → Type 0
Keyed [] = Unit
Keyed ((k, r) ∷ m) = (r.id ≡ k) × Keyed m

pub record Table : Type 0 where
  pub rows : Assoc Record
  pub distinct : Distinct rows
  pub keyed : Keyed rows

pub insert-Keyed : (r : Record) (m : Assoc Record) → Keyed m → Keyed (insert r.id r m)
unfolding insert
insert-Keyed r [] k = (refl, tt)
insert-Keyed r ((j, w) ∷ m) k = ground (arith, insert-Keyed r m k.1)

pub remove-Keyed : (id : String) (m : Assoc Record) → Keyed m → Keyed (remove id m)
unfolding remove
remove-Keyed id [] k = tt
remove-Keyed id ((j, w) ∷ m) k = ground (arith, remove-Keyed id m k.1)

-- Another row has the key and the owner.
unfoldable pub taken : Record → Assoc Record → Bool
taken r [] = false
taken r ((k, old) ∷ m) =
    if (old.idem_key == r.idem_key) && ((old.owner == r.owner) && not (r.id == k))
    then true
    else taken r m

abbrev pub put : Record → Table → Table
put r t = record {
  rows = insert r.id r t.rows;
  distinct = insert-Distinct r.id r t.rows t.distinct;
  keyed = insert-Keyed r t.rows t.keyed;
}

-- The unique index holds back a second record of the same key and owner.
abbrev pub blocked : Record → Table → Bool
blocked r t = not (r.idem_key == "") && taken r t.rows

-- A new record with its id: where it has none, one is chosen.
abbrev pub named : Record → Record
named r =
    if r.id == "" then record r { id = if r.idem_key == "" then "auto" else r.idem_key } else r

-- A new record is refused where its id is in use.
unfoldable pub insert_row : Table → Record → Option (Record × Table)
unfolding taken
insert_row t r = if blocked (named r) t then none else elim (lookup (named r).id t.rows) [
  | none ↦ some (named r, put (named r) t)
  | some old ↦ none
]

unfoldable pub save_row : Table → Record → Option (Record × Table)
unfolding taken
save_row t r = if blocked r t then none else some (r, put r t)

abbrev pub discard : Record → Table → Table
discard r t = record {
  rows = remove r.id t.rows;
  distinct = remove-Distinct r.id t.rows t.distinct;
  keyed = remove-Keyed r.id t.rows t.keyed;
}

unfoldable pub select : List Condition → Assoc Record → List Record
select cs [] = []
select cs ((k, r) ∷ m) = let rest = select cs m in if matches r cs then r ∷ rest else rest

abbrev first : List Record → Option Record
first [] = none
first (r ∷ rs) = some r

abbrev pub table_app : App
table_app = record {
  Db = Table;
  find_collection = λ t. true;
  find_by_id = λ t id. lookup id t.rows;
  find_by_filter = λ t cs. some (select cs t.rows);
  find_first = λ t cs. first (select cs t.rows);
  find_page = λ t cs newest_first limit. some (take limit (select cs t.rows));
  insert = insert_row;
  save = save_row;
  delete = λ t r. some (discard r t);
}

find_id : (id : String) (r : Record) (m : Assoc Record) → Keyed m → lookup id m ≡ some r → r.id ≡ id
unfolding lookup
find_id id r [] k found = cc
find_id id r ((j, w) ∷ m) k found = ground (arith, eq_iff j id, find_id id r m k.1)

taken_found :
    (r old : Record) (id : String) (m : Assoc Record)
    → lookup id m ≡ some old
    → old.idem_key ≡ r.idem_key
    → old.owner ≡ r.owner
    → r.id ≢ id
    → taken r m ≡ true
unfolding taken lookup
taken_found r old id [] found key own ne = cc
taken_found r old id ((j, w) ∷ m) found key own ne = ground (
  arith,
  eq_iff j id,
  eq_iff w.idem_key r.idem_key,
  eq_iff w.owner r.owner,
  eq_iff r.id j,
  taken_found r old id m,
)

select_sound :
    (cs : List Condition) (m all : Assoc Record)
    → Keyed m
    → Distinct m
    → ((id : String) (r : Record) → lookup id m ≡ some r → lookup id all ≡ some r)
    → All (λ r. (lookup r.id all ≡ some r) × (matches r cs ≡ true)) (select cs m)
unfolding select
select_sound cs [] all k d sub = tt
select_sound cs ((j, r) ∷ m) all k d sub =
    let rest =
      select_sound cs m all k.1 d.1 (λ id s found. sub id s (lookup_behind id j r m d.0 found)) in
    elim (Bool-cases (matches r cs)) [
      | inl hit ↦
          rw hit ((sub r.id r (ap (λ i. lookup i ((j, r) ∷ m)) k.0 ∙ lookup_head j r m), hit), rest)
      | inr miss ↦ rw miss rest
    ]

select_complete :
    (cs : List Condition) (m : Assoc Record) (r : Record)
    → Keyed m
    → lookup r.id m ≡ some r
    → matches r cs ≡ true
    → has_id r.id (select cs m) ≡ true
unfolding select lookup
select_complete cs [] r k found hit = cc
select_complete cs ((j, w) ∷ m) r k found hit =
    ground (arith, eq_iff j r.id, eq_iff w.id r.id, select_complete cs m r k.1)

named-Stores : (r : Record) → Stores r (named r)
named-Stores r = record {
  owner = ground arith;
  idem_key = ground arith;
  title = ground arith;
  completed = ground arith;
  id = λ given. ground (arith, eq_iff r.id "");
}

-- What an insert that succeeds has done: the record that is stored, and the table.
insert_ok :
    (t : Table) (r : Record) (p : Record × Table)
    → insert_row t r ≡ some p
    → (p.1 ≡ put p.0 t) × (p.0 ≡ named r) × (lookup p.0.id t.rows ≡ none)
unfolding insert_row
insert_ok t r p done = elim (Bool-cases (blocked (named r) t)) [
  | inl refused ↦ absurd (ground (arith, refused))
  | inr free ↦ elim (Option-cases (lookup (named r).id t.rows)) [
    | inr (old, used) ↦ absurd (ground (arith, free, used))
    | inl fresh ↦
        subst (λ q. (q.1 ≡ put q.0 t) × (q.0 ≡ named r) × (lookup q.0.id t.rows ≡ none))
          (some-injective (named r, put (named r) t) p (sym (rw (free, fresh)) ∙ done))
          (refl, refl, fresh)
  ]
]

save_ok :
    (t : Table) (r : Record) (p : Record × Table)
    → save_row t r ≡ some p
    → (p.0 ≡ r) × (p.1 ≡ put r t)
unfolding save_row
save_ok t r p done = elim (Bool-cases (blocked r t)) [
  | inl refused ↦ absurd (ground (arith, refused))
  | inr free ↦
      subst (λ q. (q.0 ≡ r) × (q.1 ≡ put r t))
        (some-injective (r, put r t) p (sym (rw free) ∙ done)) (refl, refl)
]

first_sound :
    (cs : List Condition) (m : Assoc Record) (rs : List Record) (r : Record)
    → All (λ r. (lookup r.id m ≡ some r) × (matches r cs ≡ true)) rs
    → first rs ≡ some r
    → (lookup r.id m ≡ some r) × (matches r cs ≡ true)
first_sound cs m [] r s found = cc
first_sound cs m (q ∷ rs) r s found =
    subst (λ r. (lookup r.id m ≡ some r) × (matches r cs ≡ true)) (some-injective q r found) s.0

insert_taken :
    (t : Table) (r old : Record)
    → lookup old.id t.rows ≡ some old
    → old.idem_key ≡ r.idem_key
    → old.owner ≡ r.owner
    → r.idem_key ≢ ""
    → insert_row t r ≡ none
unfolding insert_row
insert_taken t r old found key own keyed =
    let kept = named-Stores r in
    elim (Bool-cases ((named r).id == old.id)) [
      | inl same ↦ ground (arith, eq_iff (named r).id old.id, kept)
      | inr other ↦ ground (
        arith,
        kept,
        eq_iff (named r).idem_key "",
        eq_iff (named r).id old.id,
        taken_found (named r) old old.id t.rows found,
      )
    ]

pub table_laws : Laws table_app
table_laws = record {
  find_id = λ t id r found. find_id id r t.rows t.keyed found;
  insert_stores = λ t t' r stored done.
      subst (Stores r) (sym (insert_ok t r (stored, t') done).1) (named-Stores r);
  insert_fresh = λ t t' r stored done. (insert_ok t r (stored, t') done).2;
  find_insert = λ t t' r stored id done.
      ap (λ (u : Table). lookup id u.rows) (insert_ok t r (stored, t') done).0
      ∙ lookup-insert stored.id id stored t.rows;
  insert_unique = λ t r old found key own keyed. insert_taken t r old found key own keyed;
  save_stores = λ t t' r stored done.
      subst (Stores r) (sym (save_ok t r (stored, t') done).0)
        (record { owner = refl; idem_key = refl; title = refl; completed = refl; id = λ _. refl });
  find_save = λ t t' r stored id done.
      let (same, table) = save_ok t r (stored, t') done in
      ap (λ (u : Table). lookup id u.rows) table ∙ (lookup-insert r.id id r t.rows ∙ rw same refl);
  find_delete = λ t t' r id done.
      sym (ap (λ (u : Table). lookup id u.rows) (some-injective _ _ done))
      ∙ lookup-remove r.id id t.rows;
  filter_sound = λ t cs rs done.
      subst (All (λ r. (lookup r.id t.rows ≡ some r) × (matches r cs ≡ true)))
        (some-injective _ _ done)
        (select_sound cs t.rows t.rows t.keyed t.distinct (λ id r found. found));
  find_first_sound = λ t cs r found.
      first_sound cs t.rows (select cs t.rows) r
        (select_sound cs t.rows t.rows t.keyed t.distinct (λ id r found. found)) found;
  filter_complete = λ t cs rs r done found hit.
      sym (ap (has_id r.id) (some-injective _ _ done))
      ∙ select_complete cs t.rows r t.keyed found hit;
}

-- A table with no row.
abbrev pub empty : Table
empty = record { rows = []; distinct = tt; keyed = tt }
