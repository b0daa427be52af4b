-- ===== src/Agent.antt =====
-- agent/src/main.rs, `run` and `accept_decommission`: the loop that ties the parts together. What
-- `select!` takes up is a list of inputs; what the loop does to the rest of the world is the list
-- of its effects.
pub mod Acknowledge
pub mod Decommissioned
pub mod Durability
pub mod Enforcement
pub mod HighWaterMark
pub mod Loop
pub mod Offline
pub mod Restarts
pub mod Rounds
use taymna.Common.{
  ◌≡◌, refl, ◌⊎◌, inl, inr, Bool, true, false, List, [], ◌∷◌, Instant, Option, DateTime,
}
use taymna.Session.{Desired, allowed, blocked}
use taymna.Clock.{ClockGuard, Reading}
use taymna.Warning.{ExpiryWarnings, WarningEffect}
use taymna.Client.{ClientCommand, ServerEvent}
use taymna.Storage.{AgentState, ErrorKind, Result, ok, err, Disk, SaveIo}

-- `save` is a call of `Store::save` with its result; `warn` and `command` are sends to the warnings
-- thread and to the connection task.
pub data Effect : Type 0 where
  disable_usage enable_usage : Effect
  warn : WarningEffect → Effect
  command : ClientCommand → Effect
  save : AgentState → Result (Unit {0}) → Effect

-- The variables of `run`, with the files that its store writes.
pub record Agent : Type 0 where
  pub disk : Disk
  pub state : AgentState
  pub clock : ClockGuard
  pub currently_blocked : Bool
  pub warnings : ExpiryWarnings
  pub decommissioned : Bool
  pub events_closed : Bool

-- A round of the loop, with the clock readings that it makes and how its save ends. `event none` is
-- the end of the channel.
pub data Input : Type 0 where
  shutdown : SaveIo → Input
  event : Option ServerEvent → Instant → SaveIo → Input
  tick : Reading → SaveIo → Input

-- After a round the loop goes on, has been left by `break`, or `run` has returned an error.
pub data Flow : Type 0 where
  running stopped : Flow
  failed : ErrorKind → Flow

pub record Step : Type 0 where
  pub agent : Agent
  pub effects : List Effect
  pub flow : Flow

-- What follows a save: `?` returns its error.
abbrev pub after_save : Result (Unit {0}) → Flow → Flow
after_save (ok _) flow = flow
after_save (err e) flow = failed e

-- The `match desired` of a tick: the enforcement calls, and `currently_blocked` after them.
unfoldable pub enforce : Desired → Bool → List Effect × Bool
enforce blocked currently_blocked = (disable_usage ∷ [], true)
enforce allowed true = (enable_usage ∷ [], false)
enforce allowed false = ([], false)

abbrev pub on_success : Result (Unit {0}) → List Effect → List Effect
on_success (ok _) more = more
on_success (err e) more = []

-- `accept_decommission(…)?; decommissioned = true`.
abbrev pub flag_after : Flow → Bool → Bool
flag_after running flag = true
flag_after _ flag = flag

-- A round after which the loop goes on, or does not.
pub Flow-cases : (f : Flow) → (f ≡ running) ⊎ ((f ≡ stopped) ⊎ ((e : ErrorKind) × (f ≡ failed e)))
Flow-cases running = inl refl
Flow-cases stopped = inr (inl refl)
Flow-cases (failed e) = inr (inr (e, refl))
