-- ===== src/Clock.antt =====
-- agent/src/storage.rs, `ClockGuard`: the anti-rollback wall-clock guard.
pub mod Restart
pub mod Rollback
use taymna.Common.{
  ℕ, ◌+◌, ◌-◌, ◌≡◌, Bool, true, Option, none, some, DateTime, Instant, ltb, leb, if◌then◌else◌,
}

pub record ClockGuard : Type 0 where
  pub high_water_mark : DateTime
  pub anchor : Instant

-- What one call of `now` reads: the OS clock, then the monotonic clock for `elapsed()`, and the
-- monotonic clock once more for the new anchor.
pub record Reading : Type 0 where
  pub os_now : DateTime
  pub elapsed_at : Instant
  pub anchored_at : Instant

-- `anchor` is the reading of `Instant::now()` at the call.
unfoldable pub new : DateTime → Instant → ClockGuard
new persisted_high_water_mark instant = record {
  high_water_mark = persisted_high_water_mark;
  anchor = instant;
}

-- `unwrap_or_default` of a duration.
abbrev pub unwrap_or_default : Option ℕ → ℕ
unwrap_or_default none = 0
unwrap_or_default (some d) = d

-- `from_std` is chrono's conversion of a `std::time::Duration`, which fails on one that chrono
-- cannot represent. `elapsed` saturates at zero, as the truncated difference does.
module _ (from_std : ℕ → Option ℕ) where
  -- The guard after the call, and the trusted time that it returns.
  unfoldable pub now : ClockGuard → Reading → ClockGuard × DateTime
  now guard reading =
      let trusted =
        if leb guard.high_water_mark reading.os_now
        then reading.os_now
        else guard.high_water_mark
          + unwrap_or_default (from_std (reading.elapsed_at - guard.anchor)) in
      (record { high_water_mark = trusted; anchor = reading.anchored_at }, trusted)

-- `instant` is the reading of `Instant::now()` if the branch is taken.
unfoldable pub resync_from_server : ClockGuard → DateTime → Instant → ClockGuard
resync_from_server guard server_time instant =
    if ltb guard.high_water_mark server_time
    then record { high_water_mark = server_time; anchor = instant }
    else guard
