-- ===== src/Base.antt =====
-- The names that the other modules share: the libraries', passed on, and the tests, texts,
-- lists and results of the children.
mod Tests
mod Lists
pub mod Result
mod Ascii
pub use Tests.*
pub use Lists.*
pub use Result.{ok, err, Result-cases, ◌>>=◌, ◌>>◌}
pub use Ascii.{Text, codes, text_eq, text_eq_iff, text_eq_refl, to_upper_idem}
unfoldable pub use Ascii.{trim, to_upper}
pub use Prim.Native.Nat.{ℕ, zero, suc, ◌+◌, ◌-◌, ◌*◌, ◌/◌, ◌%◌, ◌^◌, ◌≤◌, ◌<◌}
pub use mathlib.Core.Path.{◌≡◌, refl, sym, ap, ◌∙◌, subst}
pub use mathlib.Core.Logic.{◌≢◌, ◌↔◌, ◌⊎◌, inl, inr}
pub use mathlib.Core.Bool.{Bool, true, false, not, ◌&&◌, ◌||◌}
pub use mathlib.Core.Option.{Option, none, some}
pub use mathlib.Core.List.{List, [], ◌∷◌, ◌++◌, map}
pub use native.Mathlib.Omega.{arith}
