-- ===== src/Base.antt =====
-- Names that every part of the gateway's model shares: the libraries', passed on, and those of the
-- children on tests, lists, dictionaries, times and results.
mod Tests
mod Lists
mod Dict
mod Outcome
mod Time
pub use Tests.*
pub use Lists.*
unfoldable pub use Dict.{lookup, insert}
pub use Dict.{StringMap, lookup-insert_self, lookup-insert_ne}
pub use Time.*
pub use Outcome.{Result, ok, err, value, ◌>>=◌}
pub use Prim.Native.Nat.{ℕ, zero, suc, ◌+◌, ◌-◌, ◌*◌, ◌/◌, ◌%◌, ◌^◌, ◌≤◌, ◌<◌, min, max}
pub use Prim.Native.String.{String}
pub use mathlib.Core.Path.{◌≡◌, refl, sym, ap, subst, ◌∙◌}
pub use mathlib.Core.Logic.{◌≢◌, ◌↔◌, ◌⊎◌, inl, inr}
pub use mathlib.Core.Bool.{Bool, true, false, not, ◌&&◌, ◌||◌}
pub use mathlib.Core.Option.{Option, none, some}
pub use mathlib.Core.List.{List, [], ◌∷◌, ◌++◌, map}
pub use native.Mathlib.Omega.{arith}
pub use text.Mathlib.TextEquality.{eq_iff}
