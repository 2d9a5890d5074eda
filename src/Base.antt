-- ===== src/Base.antt =====
-- The names that the other modules share: the libraries', passed on, and those of the modules below.
pub mod Tests
pub mod Int
pub mod Lists
pub mod Fallible
pub mod Options
pub use Tests.*
unfoldable pub use Int.*
unfoldable pub use Lists.*
pub use Fallible.{
  Error, Result, ok, err, ByResult, Result-cases, ok_injective, err-ne-ok, >>=-eq-ok,
}
pub use Options.{none-ne-some, some_injective}
pub use Prim.Native.Nat.{ℕ, zero, suc, ◌+◌, ◌-◌, ◌≤◌, ◌<◌}
pub use Prim.Native.String.{String}
pub use mathlib.Core.Path.{◌≡◌, refl, sym, ap, ◌∙◌}
pub use mathlib.Core.Logic.{◌≢◌, ◌↔◌, ◌⊎◌, inl, inr}
pub use mathlib.Core.Bool.{Bool, true, false, false≢true, not, ◌&&◌, ◌||◌}
pub use mathlib.Core.Option.{Option, none, some}
pub use mathlib.Core.List.{List, [], ◌∷◌, ◌++◌, map}
pub use native.Mathlib.Omega.{arith}
pub use text.Mathlib.Text.{◌==◌}
pub use text.Mathlib.TextEquality.{eq_iff}
pub use text.Mathlib.TextPositions.{eq_refl}
