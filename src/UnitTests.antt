-- ===== src/UnitTests.antt =====
-- The unit tests of the agent: each definition carries out a test's steps on the model and gives what
-- the test looks at, and the lemma behind it is what the test asserts. Where a test reads the clock
-- the instant is an argument, the same for all its readings.
pub mod Clock
pub mod Ladder
pub mod Decommission
pub mod Lifecycle
pub mod Scripts
pub mod Session
pub mod Storage
pub mod Url
use taymna.Common.{ℕ, ◌*◌}

abbrev pub seconds_of : ℕ → ℕ
seconds_of n = n * 1000000000

abbrev pub minutes_of : ℕ → ℕ
minutes_of n = seconds_of (n * 60)
