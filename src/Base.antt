-- ===== src/Base.antt =====
-- The names that the other modules share: the libraries', passed on, with Python's `==` and `in`,
-- outcomes with exceptions, lists read as sets, dictionaries, and tables as SQL statements see them.
mod Equality
mod Outcome
mod Lists
mod Sets
pub mod Dict
pub mod Table
pub mod State
pub mod Sorting
pub mod Texts
unfoldable pub use Equality.*
pub use Outcome.*
unfoldable pub use Lists.*
unfoldable pub use Sets.*
pub use Prim.Native.Nat.{ℕ, zero, suc, ◌+◌, ◌-◌, ◌*◌, ◌≤◌, ◌<◌}
pub use Prim.Native.String.{String, ◌++◌ as ◌<>◌}
pub use mathlib.Core.Path.{◌≡◌, refl, sym, ap, ◌∙◌}
pub use mathlib.Core.Logic.{◌≢◌, ◌↔◌, ◌⊎◌, inl, inr, ite, if_pos, if_neg}
pub use mathlib.Core.Bool.{Bool, true, false, ◌&&◌, ◌||◌, not}
pub use mathlib.Core.Option.{Option, none, some}
pub use mathlib.Core.List.{List, [], ◌∷◌, ◌++◌, map}
pub use native.Mathlib.Omega.{arith}
