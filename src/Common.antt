-- ===== src/Common.antt =====
-- What all the modules share: the library's names, Boolean tests on numbers, byte strings and
-- results.
mod Tests
mod Lists
mod Text
pub mod Bits
pub mod Octets
pub mod Outcome
pub mod Int
pub use Tests.*
pub use Lists.*
unfoldable pub use Text.{eqb, contains, lookup, insert}
pub use Text.{
  Bytes, codes, eqb_iff, eqb_refl, eqb-false, contains_iff, lookup-insert, lookup-All, In, IsByte,
}
pub use Prim.Native.Nat.{ℕ, zero, suc, ◌+◌, ◌-◌, ◌*◌, ◌/◌, ◌%◌, ◌^◌, ◌≤◌, ◌<◌, min}
pub use mathlib.Core.Path.{◌≡◌, refl, sym, ap, ap₂, ◌∙◌}
pub use mathlib.Core.Logic.{◌≢◌, ◌↔◌, ◌⊎◌, inl, inr}
pub use mathlib.Core.Bool.{Bool, true, false, not, ◌&&◌, ◌||◌}
pub use mathlib.Core.Option.{Option, none, some}
pub use mathlib.Core.List.{List, [], ◌∷◌, ◌++◌, append-nil, append_assoc}
pub use native.Mathlib.Omega.{arith}
