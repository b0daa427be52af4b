-- ===== src/Common.antt =====
-- The names that the modules of the agent share: those of the libraries, passed on, the tests, the
-- list helpers, the signed integers and the text that its children declare, and the instants and
-- durations of the agent's clocks.
mod Tests
mod Lists
pub mod Equality
pub mod Int
pub mod Text
pub use Tests.*
pub use Lists.*
pub use Prim.Native.Nat.{ℕ, zero, suc, ◌+◌, ◌-◌, ◌*◌, ◌/◌, ◌%◌, ◌^◌, ◌≤◌, ◌<◌, min, max}
pub use mathlib.Core.Path.{◌≡◌, refl, sym, ap, subst, ◌∙◌}
pub use mathlib.Core.Logic.{◌≢◌, ◌↔◌, ◌⊎◌, inl, inr}
pub use mathlib.Core.Bool.{Bool, true, false, not, ◌&&◌, ◌||◌}
pub use mathlib.Core.Option.{Option, none, some}
pub use mathlib.Core.List.{List, [], ◌∷◌, ◌++◌, map}
pub use native.Mathlib.Omega.{arith}

-- `DateTime<Utc>`: nanoseconds since the earliest instant that the type represents.
abbrev pub DateTime : Type 0
DateTime = ℕ

-- `std::time::Instant`: nanoseconds of the monotonic clock.
abbrev pub Instant : Type 0
Instant = ℕ
