-- ===== src/Base.antt =====
-- The names that all modules share: the library's, passed on, and those of the children below.
mod Tests
mod Lists
mod Text
mod Scan
mod Splits
mod Number
mod Utf8
pub mod Int
pub use Tests.*
pub use Splits.*
pub use Lists.*
unfoldable pub use Text.{split, join}
pub use Text.{cons_head}
unfoldable pub use Scan.*
unfoldable pub use Utf8.*
unfoldable pub use Number.*
pub use Prim.Native.Nat.{ℕ, zero, suc, ◌+◌, ◌-◌, ◌*◌, ◌/◌, ◌%◌, ◌^◌, ◌≤◌, ◌<◌, min, max}
pub use Prim.Native.String.{String}
pub use mathlib.Core.Path.{◌≡◌, refl, sym, ap, ap₂, ◌∙◌, subst, subst₂, fun_ext}
pub use mathlib.Core.Logic.{◌≢◌, ◌↔◌, ◌⊎◌, inl, inr}
pub use mathlib.Core.Bool.{Bool, true, false, not, ◌&&◌, ◌||◌}
pub use mathlib.Core.Option.{Option, none, some}
pub use mathlib.Core.List.{List, [], ◌∷◌, ◌++◌, map}
pub use native.Mathlib.Omega.{arith}
