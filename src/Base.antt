-- ===== src/Base.antt =====
-- What every part shares: the libraries' names, Boolean tests on the native numbers, results with
-- an error, byte strings with Rust's order on `Vec<u8>`, and the standard library's `BTreeMap`.
mod Tests
mod Lists
mod Results
pub mod Order
pub mod BtreeMap
pub mod Words
pub mod Cuts
pub mod Members
pub mod Integers
pub use Tests.*
pub use Lists.*
pub use Results.*
pub use Prim.Native.Nat.{ℕ, zero, suc, ◌+◌, ◌-◌, ◌*◌, ◌/◌, ◌%◌, ◌^◌, ◌≤◌, ◌<◌, min, max}
pub use mathlib.Core.Path.{◌≡◌, refl, sym, subst, fun_ext, ap, ap₂, ◌∙◌}
pub use mathlib.Core.Logic.{◌≢◌, ◌↔◌, ◌⊎◌, inl, inr}
pub use mathlib.Core.Bool.{Bool, true, false, not, ◌&&◌, ◌||◌}
pub use mathlib.Core.Option.{Option, none, some}
pub use mathlib.Core.List.{List, [], ◌∷◌, ◌++◌, map, append-nil, append_assoc}
pub use native.Mathlib.Omega.{arith}
