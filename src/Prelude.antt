-- ===== src/Prelude.antt =====
-- The names that the other modules share: the libraries', passed on, Boolean tests, result types,
-- and tables of rows under a text key.
pub mod Tests
pub mod Int
pub mod Table
pub mod Slices
unfoldable pub use Tests.{contains}
pub use Tests.{ltb, leb, nat_eq, if◌then◌else◌, Bool-cases, Option-cases, is_some, length}
unfoldable pub use Table.{find, update, count, append, upsert, is_distinct}
pub use Table.{key-find, find-update, find-append, find-upsert, count_key}
pub use Table.{is_distinct-update, is_distinct-append, is_distinct-upsert}
unfoldable pub use Slices.{take, drop, slice}
pub use Slices.{
  slice-drop, slice-take, take_idem, slice-nil, slice_nil, length-slice, length-take, length-drop,
}
unfoldable pub use Int.{contains_ℤ}
pub use Int.{ℤ, pos, negsuc, ltb_ℤ, eq_ℤ}
pub use Prim.Native.Nat.{ℕ, zero, suc, ◌+◌, ◌-◌, ◌*◌, ◌/◌, ◌%◌, ◌≤◌, ◌<◌, min}
pub use Prim.Native.String.{String}
pub use mathlib.Core.Path.{◌≡◌, refl, sym, ap, ap₂, subst, ◌∙◌}
pub use mathlib.Core.Logic.{◌≢◌, ◌↔◌, ◌⊎◌, inl, inr}
pub use mathlib.Core.Bool.{Bool, true, false, not, ◌&&◌, ◌||◌}
pub use mathlib.Core.Option.{Option, none, some}
pub use mathlib.Core.List.{List, [], ◌∷◌, ◌++◌, map, append-nil, append_assoc}
pub use native.Mathlib.Omega.{arith}
pub use text.Mathlib.Text.{◌==◌}
pub use text.Mathlib.TextEquality.{eq_iff}
pub use text.Mathlib.TextPositions.{eq_refl}
