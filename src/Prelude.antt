-- ===== src/Prelude.antt =====
-- The names that the other modules share: the libraries', passed on, and those of the children.
-- Maps of the program are association lists (Prelude/Assoc); Go's zero value of a missing entry is
-- written out where a component reads one.
mod Tests
mod Lists
mod Assoc
pub mod Words
pub mod Context
pub use Tests.*
pub use Lists.*
pub use Prim.Native.Nat.{ℕ, zero, suc, ◌+◌, ◌-◌, ◌*◌, ◌/◌, ◌%◌, ◌^◌, ◌≤◌, ◌<◌, min, max}
pub use Prim.Native.String.{String}
pub use mathlib.Core.Path.{◌≡◌, refl, sym, ap, ◌∙◌, subst, fun_ext}
pub use mathlib.Core.Logic.{◌≢◌, ◌↔◌, ◌⊎◌, inl, inr, ite, dite, if_pos, if_neg}
pub use mathlib.Core.Bool.{Bool, true, false, not, ◌&&◌, ◌||◌}
pub use mathlib.Core.Option.{Option, none, some}
pub use mathlib.Core.List.{List, [], ◌∷◌, ◌++◌, map, append-nil, append_assoc}
pub use native.Mathlib.Omega.{arith}
unfoldable pub use native.Mathlib.Decide.{dec_lt, dec_le, ℕ_discrete}
unfoldable pub use Assoc.{lookup, insert, delete, string_discrete}
pub use Assoc.{
  keys, lookup-insert, lookup-delete, IsKeyed, NotIn, insert-IsKeyed, delete-IsKeyed, NotIn-insert,
  NotIn-delete, lookup-NotIn, NotIn-of_lookup, differ,
}
