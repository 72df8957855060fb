-- ===== src/Prelude.antt =====
-- Shared names: the library's, passed on, and those of the children (tests, lists, integers,
-- equality by instances, keyed tables, actions with exceptions and rollback, and what they keep).
mod Tests
mod Lists
mod Int
mod Equality
mod Tables
mod Actions
mod Preservation
pub use Tests.{ltb, leb, if◌then◌else◌, ltb→lt, lt→ltb, leb→le, tests, Bool-cases, Option-cases}
pub use Lists.*
unfoldable pub use Int.*
pub use Equality.*
unfoldable pub use Tables.*
pub use Actions.*
pub use Preservation.*
pub use Prim.Native.Nat.{ℕ, zero, suc, ◌+◌, ◌-◌, ◌*◌, ◌/◌, ◌%◌, ◌^◌, ◌≤◌, ◌<◌}
pub use mathlib.Core.Path.{◌≡◌, refl, sym, ap, ◌∙◌}
pub use mathlib.Core.Logic.{◌≢◌, ◌↔◌, ◌⊎◌, inl, inr}
pub use mathlib.Core.Bool.{Bool, true, false, not, ◌&&◌, ◌||◌}
pub use mathlib.Core.Option.{Option, none, some}
pub use mathlib.Core.List.{List, [], ◌∷◌, ◌++◌, map}
pub use native.Mathlib.Omega.{arith}
