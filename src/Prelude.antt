-- ===== src/Prelude.antt =====
-- Names that the other modules share: the libraries', passed on, and those of the children.
mod Tests
pub mod Clock
mod Lists
mod Strings
mod Maps
mod Substring
mod GoText
pub mod Int
pub use Tests.*
pub use Lists.*
unfoldable pub use Strings.{Text, codes, utf8, text_eq, has_prefix}
pub use Strings.{
  text_eq_iff, text_eq_refl, text_eq_ne, ne_of_text_eq, has_prefix_sound, has_prefix_complete,
}
unfoldable pub use Maps.{Dict, lookup, insert, delete, retain, values, IsUnique}
pub use Maps.{
  lookup-insert, lookup-insert_self, lookup-insert_ne, lookup-delete, lookup-retain,
  lookup-retain-none,
}
pub use Maps.{insert-IsUnique, delete-IsUnique, retain-IsUnique}
pub use Maps.{length-insert, length-insert-le, length-retain-le, length-delete-le}
unfoldable pub use Substring.{search_from, substring_rounds, Occurs}
pub use Substring.{search_from_iff}
unfoldable pub use GoText.{split, fields, join, contains, to_lower, prepend}
pub use GoText.{contains_iff}
pub use Prim.Native.Nat.{ℕ, zero, suc, ◌+◌, ◌-◌, ◌*◌, ◌/◌, ◌%◌, ◌≤◌, ◌<◌}
pub use mathlib.Core.Path.{◌≡◌, refl, sym, ap, ◌∙◌}
pub use mathlib.Core.Logic.{◌≢◌, ◌↔◌, ◌⊎◌, inl, inr}
pub use mathlib.Core.Bool.{Bool, true, false, not, ◌&&◌, ◌||◌}
pub use mathlib.Core.Option.{Option, none, some}
pub use mathlib.Core.List.{List, [], ◌∷◌, ◌++◌, map}
pub use native.Mathlib.Omega.{arith}
