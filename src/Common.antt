-- ===== src/Common.antt =====
-- The names that the other modules share: the libraries', passed on, and those of the children.
mod Tests
mod Lists
mod Int
mod Strings
mod Times
mod Paths
pub mod Sorting
pub use Tests.*
pub use Lists.*
pub use Int.*
pub use Times.*
unfoldable pub use Paths.{path_join}
pub use Strings.{Text, text, text_eq_iff, text_eq_refl, is_empty, is_blank}
pub use Strings.Casing.{upper_trim_idem, lower_trim_idem}
pub use Strings.Trimming.{
  trim_of_solid, trim_idem, is_blank-trim, strip_idem, All-strip, All-trim, strip-solid,
  StartsSolid,
}
unfoldable pub use Strings.{
  text_eq, is_space, strip_right, strip, trim, to_upper, to_lower, upper_char, lower_char,
  fold_char,
}
pub use Prim.Native.Nat.{ℕ, zero, suc, ◌+◌, ◌-◌, ◌*◌, ◌/◌, ◌%◌, ◌≤◌, ◌<◌}
pub use Prim.Native.String.{String}
pub use mathlib.Core.Path.{◌≡◌, refl, sym, ap, ◌∙◌}
pub use mathlib.Core.Logic.{◌≢◌, ◌↔◌, ◌⊎◌, inl, inr}
pub use mathlib.Core.Bool.{Bool, true, false, not, ◌&&◌, ◌||◌}
pub use mathlib.Core.Option.{Option, none, some}
pub use mathlib.Core.List.{List, [], ◌∷◌, ◌++◌, map}
pub use native.Mathlib.Omega.{arith}
