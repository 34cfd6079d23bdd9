-- ===== src/Prelude.antt =====
-- The names that the other modules share: the libraries', passed on, and those of the children.
mod Tests
mod Lists
pub mod Int
pub mod Dict
pub mod Sorting
pub mod Order
pub use Tests.*
pub use Lists.*
pub use Prim.Native.Nat.{ℕ, zero, suc, ◌+◌, ◌-◌, ◌*◌, ◌≤◌, ◌<◌}
pub use Prim.Native.String.{String}
pub use mathlib.Core.Path.{◌≡◌, refl, sym, ap, ◌∙◌, subst}
pub use mathlib.Core.Logic.{◌≢◌, ◌↔◌, ◌⊎◌, inl, inr}
pub use mathlib.Core.Bool.{Bool, true, false, not, ◌&&◌, ◌||◌}
pub use mathlib.Core.Option.{Option, none, some}
pub use mathlib.Core.List.{List, [], ◌∷◌, ◌++◌, map, append-nil, append_assoc}
pub use native.Mathlib.Omega.{arith}
pub use text.Mathlib.Text.{◌==◌}
pub use text.Mathlib.TextEquality.{eq_iff}
pub use text.Mathlib.TextPositions.{eq_refl}
