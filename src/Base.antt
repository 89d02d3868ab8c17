-- ===== src/Base.antt =====
-- What every module shares: library names passed on, Boolean tests on the native numbers, the
-- texts of `QString` and `QByteArray`, and the hash maps of `QHash`.
mod Tests
mod Lists
mod Texts
mod Maps
mod Int
pub mod Order
pub use Tests.*
pub use Lists.*
pub use Int.*
unfoldable pub use Texts.*
unfoldable pub use Maps.*
pub use Prim.Native.Nat.{ℕ, zero, suc, ◌+◌, ◌-◌, ◌*◌, ◌/◌, ◌%◌, ◌^◌, ◌≤◌, ◌<◌, min}
pub use mathlib.Core.Path.{◌≡◌, refl, sym, ap, ◌∙◌, subst}
pub use mathlib.Core.Logic.{◌≢◌, ◌↔◌, ◌⊎◌, inl, inr}
pub use mathlib.Core.Bool.{Bool, true, false, not, ◌&&◌, ◌||◌}
pub use mathlib.Core.Option.{Option, none, some}
pub use mathlib.Core.List.{List, [], ◌∷◌, ◌++◌, map, append-nil, append_assoc}
pub use native.Mathlib.Omega.{arith}
