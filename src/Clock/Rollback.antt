-- ===== src/Clock/Rollback.antt =====
-- What the guard makes of an OS clock that is set back.
use taymna.Common.{
  ℕ, ◌+◌, ◌-◌, ◌≤◌, ◌<◌, ◌≡◌, Option, some, List, [], ◌∷◌, ◌++◌, refl, arith, DateTime, Instant,
  max, All,
}
use taymna.Clock.{ClockGuard, Reading, unwrap_or_default, now}

module _ (from_std : ℕ → Option ℕ) where
  -- The trusted time is never before the high-water mark and never before the OS clock's reading,
  -- it becomes the new high-water mark, and it passes both only by the time that the monotonic
  -- clock measured since the anchor.
  pub now_bounds :
      (guard : ClockGuard) (reading : Reading)
      → let (guard', trusted) = now from_std guard reading in
        (guard.high_water_mark ≤ trusted)
        × (reading.os_now ≤ trusted)
        × (guard'.high_water_mark ≡ trusted)
        × (trusted
            ≤ max reading.os_now (
                guard.high_water_mark
                + unwrap_or_default (from_std (reading.elapsed_at - guard.anchor))))
  unfolding now
  now_bounds guard reading = ground arith

-- chrono represents every duration up to `limit`.
abbrev pub IsExactUpTo : ℕ → (ℕ → Option ℕ) → Type 0
IsExactUpTo limit from_std = (d : ℕ) → d ≤ limit → from_std d ≡ some d

-- The monotonic clock does not run backward from `anchor` on, through the two instants of each
-- reading, and stays below `limit`.
abbrev pub IsMonotonic : ℕ → Instant → List Reading → Type 0
IsMonotonic limit anchor [] = Unit {0}
IsMonotonic limit anchor (r ∷ rs) =
    (anchor ≤ r.elapsed_at)
    × (r.elapsed_at ≤ r.anchored_at)
    × (r.elapsed_at ≤ limit)
    × IsMonotonic limit r.anchored_at rs

-- The OS clock is behind `mark` at every reading.
abbrev pub IsRolledBack : DateTime → List Reading → Type 0
IsRolledBack mark = All (λ r. r.os_now < mark)

-- What passes between the two monotonic instants of each reading.
abbrev pub gaps : List Reading → ℕ
gaps [] = 0
gaps (r ∷ rs) = (r.anchored_at - r.elapsed_at) + gaps rs

abbrev pub last_anchor : Instant → List Reading → Instant
last_anchor anchor [] = anchor
last_anchor anchor (r ∷ rs) = last_anchor r.anchored_at rs

module _ (from_std : ℕ → Option ℕ) where
  pub now_all : ClockGuard → List Reading → ClockGuard
  now_all guard [] = guard
  now_all guard (r ∷ rs) = now_all (now from_std guard r).0 rs

  pub now_all-snoc :
      (guard : ClockGuard) (rs : List Reading) (r : Reading)
      → now_all guard (rs ++ r ∷ []) ≡ (now from_std (now_all guard rs) r).0
  unfolding now_all
  now_all-snoc guard [] r = refl
  now_all-snoc guard (q ∷ rs) r = now_all-snoc (now from_std guard q).0 rs r

  now_of_rollback :
      (limit : ℕ)
      → IsExactUpTo limit from_std
      → (guard : ClockGuard) (r : Reading) → r.os_now < guard.high_water_mark
      → r.elapsed_at ≤ limit
      → (now from_std guard r).0 ≡ record {
        high_water_mark = guard.high_water_mark + (r.elapsed_at - guard.anchor);
        anchor = r.anchored_at;
      }
  unfolding now
  now_of_rollback limit exact guard r h k = ground (arith, exact (r.elapsed_at - guard.anchor))

  -- While the OS clock stays behind the high-water mark, the monotonic clock does not run backward
  -- and the durations are ones that chrono represents, the trusted time follows the monotonic
  -- clock: over any number of calls it advances by exactly the monotonic time since the anchor,
  -- less the gaps between the two readings of the monotonic clock in each call.
  pub now_all_rollback :
      (limit : ℕ)
      → IsExactUpTo limit from_std
      → (mark : DateTime) (guard : ClockGuard) (rs : List Reading) → mark ≤ guard.high_water_mark
      → IsRolledBack mark rs
      → IsMonotonic limit guard.anchor rs
      → (now_all guard rs).high_water_mark + gaps rs + guard.anchor
        ≡ guard.high_water_mark + last_anchor guard.anchor rs
  unfolding now_all
  now_all_rollback limit exact mark guard [] h b m = omega arith
  now_all_rollback limit exact mark guard (r ∷ rs) h (b, bs) (m, n, k, ms) =
      let next : ClockGuard = record {
        high_water_mark = guard.high_water_mark + (r.elapsed_at - guard.anchor);
        anchor = r.anchored_at;
      } in
      rw (now_of_rollback limit exact guard r (omega arith) k, now_all)
        (omega (arith, now_all_rollback limit exact mark next rs (omega arith) bs ms))
