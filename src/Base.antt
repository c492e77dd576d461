-- ===== src/Base.antt =====
-- What every module shares: the library's names, passed on, the Boolean tests on numbers, lists
-- over the native numbers, and the machine arithmetic of Rust's unsigned integers.
mod Tests
mod Lists
mod Words
pub mod Int
pub mod Sorting
pub mod SortBy
pub use Tests.*
pub use Lists.*
pub use Words.{u16_mod, u32_mod, u64_mod, u128_mod, wrapping_sub, saturating_sub, saturating_add}
pub use Prim.Native.Nat.{ℕ, zero, suc, ◌+◌, ◌-◌, ◌*◌, ◌/◌, ◌%◌, ◌^◌, ◌≤◌, ◌<◌, min, max}
pub use Prim.Native.String.{String}
pub use mathlib.Core.Path.{◌≡◌, refl, sym, ap, ap₂, ◌∙◌}
pub use mathlib.Core.Logic.{◌≢◌, ◌↔◌, ◌⊎◌, inl, inr}
pub use mathlib.Core.Bool.{Bool, true, false, not, ◌&&◌, ◌||◌}
pub use mathlib.Core.Option.{Option, none, some}
pub use mathlib.Core.List.{List, [], ◌∷◌, ◌++◌, map}
pub use native.Mathlib.Omega.{arith}
unfoldable pub use text.Mathlib.Text.{◌==◌ as str_eq}
