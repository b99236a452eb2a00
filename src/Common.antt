-- ===== src/Common.antt =====
-- The names that the other modules share: the libraries', passed on, and those of the children,
-- which model the parts of Go that the program uses (comparisons, slices, strings, maps).
mod Tests
mod Lists
mod Text
mod Words
pub mod Dict
pub use Tests.*
pub use Lists.*
unfoldable pub use Text.{
  text_eq, has_prefix, has_suffix, contains, lower_byte, to_lower, push, split, join, is_space,
  trim_left, trim_space, trim_prefix, trim_suffix,
}
pub use Text.*
pub use Words.*
pub use Prim.Native.Nat.{ℕ, zero, suc, ◌+◌, ◌-◌, ◌*◌, ◌/◌, ◌%◌, ◌^◌, ◌≤◌, ◌<◌, min, max}
pub use mathlib.Core.Path.{◌≡◌, refl, sym, ap, ◌∙◌}
pub use mathlib.Core.Logic.{◌≢◌, ◌↔◌, ◌⊎◌, inl, inr}
pub use mathlib.Core.Bool.{Bool, true, false, not, ◌&&◌, ◌||◌}
pub use mathlib.Core.Option.{Option, none, some}
pub use mathlib.Core.List.{List, [], ◌∷◌, ◌++◌, map, append-nil, append_assoc}
pub use native.Mathlib.Omega.{arith}
