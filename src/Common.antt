-- ===== src/Common.antt =====
-- What the modules share: names of the libraries, lists and tests over the native numbers, runs of C
-- code, machine words, memory, and laws of binary digits.
mod Tests
mod Lists
mod Exec
mod Word
mod Mem
pub mod Bits
pub use Tests.*
pub use Lists.*
pub use Exec.*
pub use Word.*
unfoldable pub use Mem.*
pub use Prim.Native.Nat.{ℕ, zero, suc, ◌+◌, ◌-◌, ◌*◌, ◌/◌, ◌%◌, ◌^◌, ◌≤◌, ◌<◌, bit_and, bit_or}
pub use mathlib.Core.Path.{◌≡◌, refl, sym, ap, ap₂, ◌∙◌}
pub use mathlib.Core.Logic.{◌≢◌, ◌↔◌, ◌⊎◌, inl, inr}
pub use mathlib.Core.Bool.{Bool, true, false, not, ◌&&◌, ◌||◌}
pub use mathlib.Core.Option.{Option, none, some}
pub use mathlib.Core.List.{List, [], ◌∷◌, ◌++◌, map, reverse, append-nil, append_assoc}
pub use native.Mathlib.Omega.{arith}
