-- ===== src/Common.antt =====
-- The names that the modules of the development share: the libraries', passed on, and those of the
-- children (tests on numbers, equality of keys, lists, sorting, text, dictionaries).
mod Tests
mod Answers
mod Equality
mod Lists
mod Sorting
pub mod Text
pub mod Dict
pub mod Float
pub use Tests.*
pub use Answers.*
unfoldable pub use Equality.*
unfoldable pub use Lists.*
unfoldable pub use Sorting.*
pub use Prim.Native.Nat.{ℕ, zero, suc, ◌+◌, ◌-◌, ◌*◌, ◌/◌, ◌≤◌, ◌<◌, min, max}
pub use Prim.Native.String.{String, ◌++◌ as ◌<>◌}
pub use mathlib.Core.Path.{◌≡◌, refl, sym, ap, ◌∙◌, subst}
pub use mathlib.Core.Logic.{◌≢◌, ◌↔◌, ◌⊎◌, inl, inr, ite}
pub use mathlib.Core.Bool.{Bool, true, false, not, ◌&&◌, ◌||◌}
pub use mathlib.Core.Option.{Option, none, some}
pub use mathlib.Core.List.{List, [], ◌∷◌, ◌++◌, map, append-nil, append_assoc}
pub use native.Mathlib.Omega.{arith}
