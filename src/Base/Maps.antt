-- ===== src/Base/Maps.antt =====
-- Go's `map[string]V` as an association list. `insert` keeps the place of a key that is there, so
-- the keys stay distinct, and the list is an order in which a `range` may visit the entries.
use Prim.Native.String.{String}
use mathlib.Core.Path.{◌≡◌, refl}
use mathlib.Core.Bool.{false}
use mathlib.Core.Option.{Option, none, some}
use mathlib.Core.List.{List, [], ◌∷◌}
use native.Mathlib.Omega.{arith}
use text.Mathlib.Text.{◌==◌}
use text.Mathlib.TextEquality.{eq_iff}
use cali_go_stack.Base.Tests.{if◌then◌else◌}

abbrev pub Assoc {ℓ} : Type ℓ → Type ℓ
Assoc V = List (String × V)

module _ {ℓ} {V : Type ℓ} where
  -- m[k], with `none` for a missing key.
  unfoldable pub lookup : String → Assoc V → Option V
  lookup key [] = none
  lookup key ((held, value) ∷ rest) = if held == key then some value else lookup key rest

  -- m[k] = v
  unfoldable pub insert : String → V → Assoc V → Assoc V
  insert key value [] = (key, value) ∷ []
  insert key value ((held, old) ∷ rest) =
      if held == key then (key, value) ∷ rest else (held, old) ∷ insert key value rest

  -- delete(m, k)
  unfoldable pub remove : String → Assoc V → Assoc V
  remove key [] = []
  remove key ((held, value) ∷ rest) =
      let others = remove key rest in if held == key then others else (held, value) ∷ others

  pub lookup-insert :
      (key asked : String) (new : V) (m : Assoc V)
      → lookup asked (insert key new m) ≡ (if key == asked then some new else lookup asked m)
  unfolding lookup insert
  lookup-insert key asked new [] = refl
  lookup-insert key asked new ((held, old) ∷ rest) = ground (
    arith,
    lookup-insert key asked new rest,
    eq_iff held asked,
    eq_iff held key,
    eq_iff key asked,
  )

  pub lookup-remove :
      (key asked : String) (m : Assoc V)
      → lookup asked (remove key m) ≡ (if key == asked then none else lookup asked m)
  unfolding lookup remove
  lookup-remove key asked [] = ground arith
  lookup-remove key asked ((held, old) ∷ rest) =
      ground
        (arith, lookup-remove key asked rest, eq_iff held asked, eq_iff held key, eq_iff key asked)

  -- No key stands twice.
  abbrev pub Distinct : Assoc V → Type ℓ
  Distinct [] = Unit
  Distinct ((k, v) ∷ m) = (lookup k m ≡ none) × Distinct m

  pub insert-Distinct : (k : String) (v : V) (m : Assoc V) → Distinct m → Distinct (insert k v m)
  unfolding insert lookup
  insert-Distinct k v [] d = (refl, tt)
  insert-Distinct k v ((j, w) ∷ m) d =
      ground (arith, eq_iff j k, eq_iff k j, lookup-insert k j v m, insert-Distinct k v m d.1)

  pub remove-Distinct : (k : String) (m : Assoc V) → Distinct m → Distinct (remove k m)
  unfolding remove
  remove-Distinct k [] d = tt
  remove-Distinct k ((j, w) ∷ m) d =
      ground (arith, eq_iff j k, eq_iff k j, lookup-remove k j m, remove-Distinct k m d.1)

  pub lookup_head : (k : String) (v : V) (m : Assoc V) → lookup k ((k, v) ∷ m) ≡ some v
  unfolding lookup
  lookup_head k v m = ground (arith, eq_iff k k)

  -- What stands behind another key's entry is found from the front too.
  pub lookup_behind :
      (k j : String) (v : V) {w : V} (m : Assoc V)
      → lookup j m ≡ none
      → lookup k m ≡ some w
      → lookup k ((j, v) ∷ m) ≡ some w
  unfolding lookup
  lookup_behind k j v m fresh found = ground (arith, eq_iff j k)

  pub lookup_skip :
      (k j : String) (v : V) (m : Assoc V) → (j == k) ≡ false → lookup k ((j, v) ∷ m) ≡ lookup k m
  unfolding lookup
  lookup_skip k j v m e = rw e

pub ruleset assoc_laws = (lookup-insert, lookup-remove)
