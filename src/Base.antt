-- ===== src/Base.antt =====
-- What the other modules share: library names passed on, tests on numbers, lists, byte strings,
-- and the outcome of Go code that may return an error or panic.
mod Tests
mod Lists
mod Text
mod Effect
mod Int
pub use Tests.*
pub use Lists.*
pub use Text.*
unfoldable pub use Text.{bytes_eq, last_index_byte, has_prefix, has_suffix, contains}
unfoldable pub use Text.{to_lower, equal_fold, trim_space, count_byte}
pub use Effect.*
pub use Int.*
pub use Prim.Native.Nat.{ℕ, zero, suc, ◌+◌, ◌-◌, ◌*◌, ◌/◌, ◌%◌, ◌≤◌, ◌<◌}
pub use mathlib.Core.Path.{◌≡◌, refl, sym, ap, ap₂, subst, ◌∙◌}
pub use mathlib.Core.Logic.{◌≢◌, ◌↔◌, ◌⊎◌, inl, inr}
pub use mathlib.Core.Bool.{Bool, true, false, ◌&&◌, ◌||◌, not}
pub use mathlib.Core.Option.{Option, none, some}
pub use mathlib.Core.List.{List, [], ◌∷◌, ◌++◌, map, reverse, append_assoc, append-nil}
pub use native.Mathlib.Omega.{arith}
