-- ===== src/UnitTests/Clock.antt =====
-- agent/src/storage.rs, `mod tests`: the tests of `ClockGuard`.
use taymna.Common.{◌+◌, ◌-◌, ◌≡◌, ◌≤◌, some, List, [], ◌∷◌, arith, DateTime, Instant}
use taymna.Clock
use taymna.Clock.{ClockGuard, Reading, resync_from_server}
use taymna.UnitTests.{seconds_of}

-- `now` is the trusted time of the first call behind `start`, which lies ten seconds back.
trusts_a_normal_clock : DateTime → Reading → DateTime
trusts_a_normal_clock start reading =
    (Clock.now some (Clock.new start reading.elapsed_at) reading).1

trusts_a_normal_clock_lem :
    (start : DateTime) (reading : Reading)
    → reading.os_now ≡ start + seconds_of 10
    → (start ≤ trusts_a_normal_clock start reading)
      × (trusts_a_normal_clock start reading ≤ reading.os_now)
unfolding trusts_a_normal_clock Clock.now Clock.new
trusts_a_normal_clock_lem start reading h = ground arith

-- Two calls, the clocks of which read anything at all.
ignores_a_rollback : DateTime → Instant → Reading → Reading → DateTime × DateTime
ignores_a_rollback mark instant r r' =
    let (guard, first) = Clock.now some (Clock.new mark instant) r in
    (first, (Clock.now some guard r').1)

ignores_a_rollback_lem :
    (mark : DateTime) (instant : Instant) (r r' : Reading)
    → let (first, second) = ignores_a_rollback mark instant r r' in
      (first ≤ second) × (mark ≤ first)
unfolding ignores_a_rollback Clock.now Clock.new
ignores_a_rollback_lem mark instant r r' = ground arith

-- The marks of consecutive calls.
marks : ClockGuard → List Reading → List DateTime
marks guard [] = []
marks guard (r ∷ rs) =
    let (guard', now) = Clock.now some guard r in guard'.high_water_mark ∷ marks guard' rs

abbrev IsAscending : DateTime → List DateTime → Type 0
IsAscending previous [] = Unit {0}
IsAscending previous (mark ∷ more) = (previous ≤ mark) × IsAscending mark more

now_ascends :
    (guard : ClockGuard) (r : Reading)
    → guard.high_water_mark ≤ (Clock.now some guard r).0.high_water_mark
unfolding Clock.now
now_ascends guard r = ground arith

marks-IsAscending :
    (guard : ClockGuard) (rs : List Reading) → IsAscending guard.high_water_mark (marks guard rs)
unfolding marks
marks-IsAscending guard [] = tt
marks-IsAscending guard (r ∷ rs) =
    (now_ascends guard r, marks-IsAscending (Clock.now some guard r).0 rs)

resync_only_moves_forward : DateTime → Instant → DateTime × DateTime
resync_only_moves_forward base instant =
    let back = resync_from_server (Clock.new base instant) (base - seconds_of 30) instant in
    (back.high_water_mark, (resync_from_server back (base + seconds_of 30) instant).high_water_mark)

resync_only_moves_forward_lem :
    (base : DateTime) (instant : Instant)
    → resync_only_moves_forward base instant ≡ (base, base + seconds_of 30)
unfolding resync_only_moves_forward resync_from_server Clock.new
resync_only_moves_forward_lem base instant = ground arith
