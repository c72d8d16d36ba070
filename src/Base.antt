-- ===== src/Base.antt =====
-- Names that every module shares: the libraries' names passed on, Boolean tests on the native
-- numbers, byte strings, and finite maps with byte strings as keys. They stand for no file.
mod Tests
mod Lists
mod Text
mod Words
pub mod Maps
pub mod Decimal
pub mod Tables
pub mod Integers
pub mod Calls
pub use Tests.*
unfoldable pub use Tests.{◌>>=◌}
pub use Lists.*
pub use Text.*
unfoldable pub use Text.{bytes_eq, find}
pub use Words.*
unfoldable pub use Words.{add64, sub64}
pub use Prim.Native.Nat.{ℕ, zero, suc, ◌+◌, ◌-◌, ◌*◌, ◌/◌, ◌%◌, ◌^◌, ◌≤◌, ◌<◌, min, max}
pub use mathlib.Core.Path.{◌≡◌, refl, sym, ap, ◌∙◌, subst, fun_ext, ◌≡⟨◌⟩◌, ◌∎}
pub use mathlib.Core.Logic.{◌≢◌, ◌↔◌, ◌⊎◌, inl, inr}
pub use mathlib.Core.Bool.{Bool, true, false, not, ◌&&◌, ◌||◌}
pub use mathlib.Core.Option.{Option, none, some}
pub use mathlib.Core.List.{List, [], ◌∷◌, ◌++◌, map, append-nil, append_assoc}
pub use native.Mathlib.Omega.{arith}
