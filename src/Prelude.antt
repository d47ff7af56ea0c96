-- ===== src/Prelude.antt =====
-- The names that the other modules share: the libraries', passed on, and those of the children.
mod Tests
mod Text
mod Lists
mod Sort
mod Split
pub use Tests.*
pub use Text.{
  NoSpace, strip_of_NoSpace, strip-strip, NoUpper, lower_of_NoUpper, or_else-empty, all_chars,
  truthy, or_else, repr, codes,
}
unfoldable pub use Text.{
  is_space, strip, lower, starts_with, drop, has_part, join, show_nat, repr_list, rstrip_slash,
}
pub use Sort.{text_leb, sort_by-All}
unfoldable pub use Sort.{sort_by}
unfoldable pub use Split.{split}
pub use Lists.*
unfoldable pub use Lists.{lookup, insert}
pub use Prim.Native.Nat.{ℕ, zero, suc, ◌+◌, ◌-◌, ◌*◌, ◌/◌, ◌%◌, ◌^◌, ◌≤◌, ◌<◌}
pub use Prim.Native.Char.{Char, code}
pub use Prim.Native.String.{String, ◌++◌ as ◌<>◌}
pub use mathlib.Core.Path.{◌≡◌, refl, sym, ap, ◌∙◌}
pub use mathlib.Core.Logic.{◌≢◌, ◌↔◌, ◌⊎◌, inl, inr}
pub use mathlib.Core.Bool.{Bool, true, false, not, ◌&&◌, ◌||◌}
pub use mathlib.Core.Option.{Option, none, some}
pub use mathlib.Core.List.{List, [], ◌∷◌, ◌++◌, map}
pub use native.Mathlib.Omega.{arith}
pub use text.Mathlib.Text.{◌==◌}
pub use text.Mathlib.TextEquality.{eq_iff}
pub use text.Mathlib.TextPositions.{eq_refl}
