-- ===== src/Base.antt =====
-- The names that the modules share: the libraries', passed on, and those of the modules below.
mod Tests
mod Lists
mod Maps
mod Bytes
mod Texts
mod Scan
pub use Tests.*
pub use Bytes.{codes, bytes_eq, bytes_eq_iff}
unfoldable pub use Texts.{concat, decimal}
unfoldable pub use Scan.{trim_left, trim_right, cut}
pub use Scan.{
  is_nil, occurs, occurs-Without, trim, first_is, last_is, IsTrimmed, Without, Without-append,
  cut-append, trim_lem, trim_left_lem, trim_right_lem, last_is-append, trim_right-append,
}
pub use Lists.*
pub use Maps.{
  Assoc, lookup-insert, lookup-remove, lookup_head, lookup_behind, lookup_skip, Distinct,
  insert-Distinct, remove-Distinct, assoc_laws,
}
unfoldable pub use Maps.{lookup, insert, remove}
pub use Prim.Native.Nat.{ℕ, zero, suc, ◌+◌, ◌-◌, ◌*◌, ◌/◌, ◌%◌, ◌^◌, ◌≤◌, ◌<◌}
pub use Prim.Native.String.{String}
pub use mathlib.Core.Path.{◌≡◌, refl, sym, subst, ap, ◌∙◌}
pub use mathlib.Core.Logic.{◌≢◌, ◌↔◌, ◌⊎◌, inl, inr}
pub use mathlib.Core.Bool.{Bool, true, false, ◌&&◌, ◌||◌, not}
pub use mathlib.Core.Option.{Option, none, some}
pub use mathlib.Core.List.{List, [], ◌∷◌, ◌++◌, map}
pub use native.Mathlib.Omega.{arith}
unfoldable pub use native.Mathlib.Decide.{ℕ_discrete}
pub use text.Mathlib.Text.{◌==◌}
pub use text.Mathlib.TextEquality.{eq_iff}
