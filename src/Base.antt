-- ===== src/Base.antt =====
-- What the modules of the parts share: names of the libraries, Boolean tests on numbers, lists
-- measured by the native numbers, buffers, strings, floats, and the outcome of a run of C code.
mod Tests
mod Lists
pub mod Buffer
pub mod CString
pub mod Doubles
pub mod Floats
pub mod Outcome
pub mod Toy
pub mod Words
pub use Tests.*
pub use Lists.*
pub use Prim.Native.Nat.{ℕ, zero, suc, ◌+◌, ◌-◌, ◌*◌, ◌/◌, ◌%◌, ◌^◌, ◌≤◌, ◌<◌}
pub use mathlib.Core.Path.{◌≡◌, refl, sym, ap, ◌∙◌}
pub use mathlib.Core.Logic.{◌≢◌, ◌↔◌, ◌⊎◌, inl, inr}
pub use mathlib.Core.Bool.{Bool, true, false, not, ◌&&◌, ◌||◌}
pub use mathlib.Core.Option.{Option, none, some}
pub use mathlib.Core.List.{List, [], ◌∷◌, ◌++◌, map}
pub use native.Mathlib.Omega.{arith}
