-- ===== src/Store/Loro/Plain.antt =====
-- A document in memory, which has the laws: the items as a map. It exchanges no updates.
use cali_go_stack.Base.{
  true, ◌≡◌, sym, ap, ◌∙◌, String, none, some, [], ◌∷◌, arith, ◌==◌, eq_iff, Assoc, lookup, insert,
  remove, lookup-insert, lookup-remove, lookup_head, lookup_behind, Distinct, insert-Distinct,
  remove-Distinct, if◌then◌else◌,
}
use mathlib.Core.Option.{some-injective}
use cali_go_stack.Store.App.{All}
use cali_go_stack.Store.Loro.{Loro, LoroLaws, has_key, Value, Field, child, new_map, put_value}

unfoldable pub put_at : String → Field → Assoc Value → Assoc Value
put_at id f [] = []
put_at id f ((k, v) ∷ m) =
    if k == id
    then elim (put_value f (some v)) [ none ↦ m | some w ↦ (k, w) ∷ m ]
    else (k, v) ∷ put_at id f m

lookup-put_at :
    (id asked : String) (f : Field) (d : Assoc Value)
    → lookup asked (put_at id f d)
      ≡ (if id == asked then put_value f (lookup asked d) else lookup asked d)
unfolding lookup put_at
lookup-put_at id asked f [] = ground arith
lookup-put_at id asked f ((k, child it) ∷ m) =
    ground (arith, eq_iff k id, eq_iff k asked, eq_iff id asked, lookup-put_at id asked f m)
lookup-put_at id asked f ((k, Value.plain) ∷ m) =
    ground (arith, eq_iff k id, eq_iff k asked, eq_iff id asked, lookup-put_at id asked f m)

pub put_at-Distinct :
    (id : String) (f : Field) (d : Assoc Value) → Distinct d → Distinct (put_at id f d)
unfolding put_at
put_at-Distinct id f [] s = tt
put_at-Distinct id f ((k, child it) ∷ m) s =
    ground (arith, eq_iff k id, eq_iff id k, lookup-put_at id k f m, put_at-Distinct id f m s.1)
put_at-Distinct id f ((k, Value.plain) ∷ m) s =
    ground (arith, eq_iff k id, eq_iff id k, lookup-put_at id k f m, put_at-Distinct id f m s.1)

-- The items, no key twice.
pub record Items : Type 0 where
  pub items : Assoc Value
  pub distinct : Distinct items

abbrev pub no_items : Items
no_items = record { items = []; distinct = tt }

abbrev pub plain_loro : Loro
plain_loro = record {
  Doc = Items;
  new_doc = no_items;
  find = λ d id. lookup id d.items;
  all = λ d. d.items;
  insert_map = λ d id. some (record {
    items = insert id (child new_map) d.items;
    distinct = insert-Distinct id (child new_map) d.items d.distinct;
  });
  insert_any = λ d id f.
      some (record {
        items = put_at id f d.items;
        distinct = put_at-Distinct id f d.items d.distinct;
      });
  delete = λ d id.
      some (record { items = remove id d.items; distinct = remove-Distinct id d.items d.distinct });
  import_updates = λ d updates. some d;
  export_updates = λ d. some [];
}

all_lookup :
    (m all : Assoc Value)
    → Distinct m
    → ((k : String) (v : Value) → lookup k m ≡ some v → lookup k all ≡ some v)
    → All (λ kv. lookup kv.0 all ≡ some kv.1) m
all_lookup [] all s sub = tt
all_lookup ((k, v) ∷ m) all s sub = (
  sub k v (lookup_head k v m),
  all_lookup m all s.1 (λ j w found. sub j w (lookup_behind j k v m s.0 found)),
)

has_key-lookup :
    (m : Assoc Value) (id : String) (v : Value) → lookup id m ≡ some v → has_key id m ≡ true
unfolding lookup
has_key-lookup [] id v found = absurd (ground (arith, found))
has_key-lookup ((k, w) ∷ m) id v found = ground (arith, has_key-lookup m id v)

pub plain_laws : LoroLaws plain_loro
plain_laws = record {
  find_insert_map = λ d d' id asked done.
      sym (ap (λ (x : Items). lookup asked x.items) (some-injective _ _ done))
      ∙ lookup-insert id asked (child new_map) d.items;
  find_insert_any = λ d d' id asked f done.
      sym (ap (λ (x : Items). lookup asked x.items) (some-injective _ _ done))
      ∙ lookup-put_at id asked f d.items;
  find_delete = λ d d' id asked done.
      sym (ap (λ (x : Items). lookup asked x.items) (some-injective _ _ done))
      ∙ lookup-remove id asked d.items;
  all_keys = λ d id v found. has_key-lookup d.items id v found;
  all_found = λ d. all_lookup d.items d.items d.distinct (λ k v found. found);
}
