-- ===== src/Base.antt =====
-- The names that the other modules share: the libraries', passed on, and those of the children.
mod Tests
mod Equality
mod Lists
mod Sort
mod Increasing
mod Texts
mod Maps
pub mod Options
mod Outcome
pub use Tests.*
pub use Lists.*
pub use Sort.{All-insert_by, All-sort_by, length-insert_by, length-sort_by}
unfoldable pub use Sort.{insert_by, sort_by}
pub use Increasing.*
pub use Outcome.*
pub use Equality.{Eq, ◌==◌, nat_eq, eq_self, neq_ne}
pub use Texts.{
  Text, text, text_eq, text_beq_iff, before_irrefl, before_asym, before_trans, before_total,
}
unfoldable pub use Texts.{text_beq, before}
pub use Maps.{Map, values, get-set, get-delete, IsUnique, IsUnique-set, delete_absent}
unfoldable pub use Maps.{get, set, delete}
pub use Prim.Native.Nat.{ℕ, zero, suc, ◌+◌, ◌-◌, ◌*◌, ◌/◌, ◌%◌, ◌^◌, ◌≤◌, ◌<◌, min, max}
pub use mathlib.Core.Path.{◌≡◌, refl, sym, ap, ap₂, subst, ◌∙◌}
pub use mathlib.Core.Logic.{◌≢◌, ◌↔◌, ◌⊎◌, inl, inr}
pub use mathlib.Core.Bool.{Bool, true, false, not, ◌&&◌, ◌||◌}
pub use mathlib.Core.Option.{Option, none, some}
pub use mathlib.Core.List.{List, [], ◌∷◌, ◌++◌, map}
pub use native.Mathlib.Omega.{arith}
