-- ===== src/Base.antt =====
-- The names that the other modules share: the libraries', passed on, and those of five children:
-- Boolean tests, lists over the native numbers, the arithmetic of the machine words, options in
-- sequence, and numbers as text.
mod Tests
mod Lists
mod Words
mod Options
mod Decimal
pub use Tests.*
pub use Lists.*
pub use Words.*
pub use Options.*
pub use Decimal.*
pub use Prim.Native.Nat.{ℕ, zero, suc, ◌+◌, ◌-◌, ◌*◌, ◌/◌, ◌%◌, ◌^◌, ◌≤◌, ◌<◌, min, max}
pub use mathlib.Core.Path.{◌≡◌, refl, sym, ap, ap₂, ◌∙◌, subst}
pub use mathlib.Core.Logic.{◌≢◌, ◌↔◌, ◌⊎◌, inl, inr}
pub use mathlib.Core.Bool.{Bool, true, false, not, ◌&&◌, ◌||◌}
pub use mathlib.Core.Option.{Option, none, some}
pub use mathlib.Core.List.{List, [], ◌∷◌, ◌++◌, map, append-nil, append_assoc}
pub use native.Mathlib.Omega.{arith}
