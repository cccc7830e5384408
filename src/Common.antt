-- ===== src/Common.antt =====
-- The names that the other modules share: the libraries', passed on, and those of the children.
mod Tests
mod Lists
mod Texts
mod Paths
mod Dicts
mod Results
mod Decimals
pub mod Int
pub mod TextLaws
pub mod DirectPaths
pub mod Slices
pub use Tests.*
pub use Lists.*
pub use Results.*
unfoldable pub use Decimals.{decimal}
pub use Decimals.{decimal_injective, decimal-All_digits}
unfoldable pub use Texts.{
  Text, codes, text_eq, has_prefix, has_suffix, trim_prefix, trim_suffix, contains, cut, split_n,
  split, join, to_lower_byte, to_lower,
}
pub use Texts.{IsWithout, split-All, text_eq_iff, text_eq_refl, text_eq_sym}
unfoldable pub use Paths.{clean, path_join, path_split_dir, is_rooted, clean_step, clean_parts}
pub use Dicts.{Dict, dict_laws, dict_get-empty, dict_get-remove, dict_get-put, dict_has}
unfoldable pub use Dicts.{dict_empty, dict_get, dict_remove, dict_put}
pub use Prim.Native.Nat.{ℕ, zero, suc, ◌+◌, ◌-◌, ◌*◌, ◌/◌, ◌%◌, ◌^◌, ◌≤◌, ◌<◌}
pub use Prim.Native.String.{String}
pub use mathlib.Core.Path.{◌≡◌, refl, sym, ap, ◌∙◌, subst}
pub use mathlib.Core.Logic.{◌≢◌, ◌↔◌, ◌⊎◌, inl, inr}
pub use mathlib.Core.Bool.{Bool, true, false, not, ◌&&◌, ◌||◌}
pub use mathlib.Core.Option.{Option, none, some}
pub use mathlib.Core.List.{List, [], ◌∷◌, ◌++◌, map, append-nil, append_assoc}
pub use native.Mathlib.Omega.{arith}
