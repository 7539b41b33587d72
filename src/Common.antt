-- ===== src/Common.antt =====
-- The names that every other module shares: the libraries' names, passed on, and those of the
-- children on tests, arrays, machine words, integers and text.
mod Tests
mod Arrays
mod Integers
mod Words
mod Texts
pub mod Bits
pub use Tests.*
pub use Arrays.*
unfoldable pub use Integers.*
pub use Words.*
pub use Texts.*
pub use Prim.Native.Nat.{
  ℕ, zero, suc, ◌+◌, ◌-◌, ◌*◌, ◌/◌, ◌%◌, ◌^◌, ◌≤◌, ◌<◌, bit_and, bit_or, bit_xor,
}
pub use mathlib.Core.Path.{◌≡◌, refl, sym, ap, ◌∙◌}
pub use mathlib.Core.Logic.{◌≢◌, ◌⊎◌, inl, inr}
pub use mathlib.Core.Bool.{Bool, true, false, not, ◌&&◌, ◌||◌}
pub use mathlib.Core.Option.{Option, none, some}
pub use mathlib.Core.List.{List, [], ◌∷◌, ◌++◌, map}
pub use native.Mathlib.Omega.{arith}
