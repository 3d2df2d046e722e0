-- ===== src/Common.antt =====
-- What the other modules share: the library names in use, the tests of Python's `==` and `in`, and
-- the shared lemmas. The children hold lists, dicts, text and the search in text.
mod Tests
mod Lists
pub mod Dict
pub mod Text
pub mod Find
pub mod Format
pub use Tests.*
pub use Lists.*
unfoldable pub use Tests.{dec_str}
pub use Prim.Native.Nat.{ℕ, zero, suc, ◌+◌, ◌-◌, ◌*◌, ◌≤◌, ◌<◌}
pub use Prim.Native.String.{String}
pub use mathlib.Core.Path.{◌≡◌, refl, sym, ap, subst, ◌∙◌}
pub use mathlib.Core.Logic.{◌≢◌, ◌↔◌, ◌⊎◌, inl, inr}
pub use mathlib.Core.Bool.{Bool, true, false, not, ◌&&◌, ◌||◌}
pub use mathlib.Core.Option.{Option, none, some}
pub use mathlib.Core.List.{List, [], ◌∷◌, ◌++◌, map}
pub use native.Mathlib.Omega.{arith}
