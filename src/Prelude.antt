-- ===== src/Prelude.antt =====
-- Names shared by the other modules: those of the libraries, passed on, and those of the children:
-- Boolean tests, lists, arrays with an in-place copy, and signed integers.
mod Tests
mod Lists
mod Arrays
mod Int
pub use Tests.*
pub use Lists.*
unfoldable pub use Arrays.{update, copy}
pub use Arrays.{update_lem, copy_lem, slice, length-slice, slice-append, slice_ext}
unfoldable pub use Int.{◌+ℤ◌, ◌-ℤ◌}
pub use Int.*
pub use Prim.Native.Nat.{ℕ, zero, suc, ◌+◌, ◌-◌, ◌*◌, ◌/◌, ◌%◌, ◌^◌, ◌≤◌, ◌<◌}
pub use mathlib.Core.Path.{◌≡◌, refl, sym, ap, ◌∙◌}
pub use mathlib.Core.Logic.{◌≢◌, ◌↔◌, ◌⊎◌, inl, inr}
pub use mathlib.Core.Bool.{Bool, true, false, not, ◌&&◌, ◌||◌}
pub use mathlib.Core.Option.{Option, none, some}
pub use mathlib.Core.List.{List, [], ◌∷◌, ◌++◌, map}
pub use native.Mathlib.Omega.{arith}
