-- ===== src/Prelude.antt =====
-- Names that every module shares: those of the libraries, passed on, and the helpers of the
-- children (tests, lists, machine words, faults).
mod Tests
mod Lists
mod Words
mod Fault
mod Memory
mod Counts
pub mod Bits
pub use Tests.*
pub use Lists.*
unfoldable pub use Words.*
pub use Fault.*
pub use Counts.*
unfoldable pub use Memory.*
pub use Prim.Native.Nat.{
  ℕ, zero, suc, ◌+◌, ◌-◌, ◌*◌, ◌/◌, ◌%◌, ◌^◌, ◌≤◌, ◌<◌, min, bit_and, bit_or, bit_xor,
}
pub use mathlib.Core.Path.{◌≡◌, refl, sym, ap, ap₂, ◌∙◌, subst, fun_ext}
pub use mathlib.Core.Logic.{◌≢◌, ◌↔◌, ◌⊎◌, inl, inr}
pub use mathlib.Core.Bool.{Bool, true, false, ◌&&◌, ◌||◌, not}
pub use mathlib.Core.Option.{Option, none, some}
pub use mathlib.Core.List.{List, [], ◌∷◌, ◌++◌, map, append-nil, append_assoc}
pub use native.Mathlib.Omega.{arith}
