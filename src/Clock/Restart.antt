-- ===== src/Clock/Restart.antt =====
-- What the guard knows of the time in which the agent did not run.
use taymna.Common.{
  ℕ, ◌+◌, ◌-◌, ◌≤◌, ◌<◌, ◌≡◌, ◌↔◌, refl, Option, some, List, [], ◌∷◌, ◌++◌, arith, DateTime,
  Instant,
}
use taymna.Session.{SessionSnapshot, active, allowed, advance}
use taymna.Session.Enforcement.{advance-allowed_iff}
use taymna.Clock.{ClockGuard, Reading, new, now}
use taymna.Clock.Rollback.{
  IsExactUpTo, IsMonotonic, IsRolledBack, gaps, last_anchor, now_all, now_all-snoc,
  now_all_rollback, now_bounds,
}

gaps-snoc :
    (rs : List Reading) (r : Reading)
    → gaps (rs ++ r ∷ []) ≡ gaps rs + (r.anchored_at - r.elapsed_at)
gaps-snoc [] r = omega arith
gaps-snoc (q ∷ rs) r = omega (arith, gaps-snoc rs r)

last_anchor-snoc :
    (anchor : Instant) (rs : List Reading) (r : Reading)
    → last_anchor anchor (rs ++ r ∷ []) ≡ r.anchored_at
last_anchor-snoc anchor [] r = refl
last_anchor-snoc anchor (q ∷ rs) r = last_anchor-snoc q.anchored_at rs r

last_forward :
    (limit : ℕ) (anchor : Instant) (rs : List Reading) (r : Reading)
    → IsMonotonic limit anchor (rs ++ r ∷ [])
    → r.elapsed_at ≤ r.anchored_at
last_forward limit anchor [] r m = m.1
last_forward limit anchor (q ∷ rs) r m = last_forward limit q.anchored_at rs r m.3

module _ (from_std : ℕ → Option ℕ) where
  -- The time that a guard gives at its last call, of any number of them.
  trusted_at :
      (limit : ℕ)
      → IsExactUpTo limit from_std
      → (mark : DateTime) (start : Instant) (rs : List Reading) (r : Reading)
      → IsRolledBack mark (rs ++ r ∷ [])
      → IsMonotonic limit start (rs ++ r ∷ [])
      → (now from_std (now_all from_std (new mark start) rs) r).1 + gaps rs + start
        ≡ mark + r.elapsed_at
  trusted_at limit exact mark start rs r b m =
      let guard : ClockGuard = record { high_water_mark = mark; anchor = start } in
      let before = now_all from_std guard rs in
      let total =
        now_all_rollback from_std limit exact mark guard (rs ++ r ∷ []) (omega arith) b m in
      unfold new in
      omega (
        arith,
        rw (now_all-snoc from_std guard rs r) at total,
        now_bounds from_std before r,
        gaps-snoc rs r,
        last_anchor-snoc start rs r,
        last_forward limit start rs r m,
      )

  -- An agent that starts with the OS clock behind the persisted high-water mark, and sees it there
  -- at every call of `now` since, has counted at any such call just the monotonic time since
  -- its own start, less the gaps within the calls before: a session that is still active is allowed
  -- then exactly if the mark plus that time is before the deadline, however long the agent had not
  -- been running. The monotonic clock does not run backward, and chrono represents the durations.
  pub restart_uncounted :
      (limit : ℕ)
      → IsExactUpTo limit from_std
      → (s : SessionSnapshot) (mark : DateTime) (start : Instant) (rs : List Reading) (r : Reading)
      → s.status ≡ active
      → IsRolledBack mark (rs ++ r ∷ [])
      → IsMonotonic limit start (rs ++ r ∷ [])
      → let trusted = (now from_std (now_all from_std (new mark start) rs) r).1 in
        ((advance (some s) trusted).1 ≡ allowed)
        ↔ (mark + r.elapsed_at < s.expires_at + gaps rs + start)
  restart_uncounted limit exact s mark start rs r a b m =
      let trusted = (now from_std (now_all from_std (new mark start) rs) r).1 in
      let (only, if) = advance-allowed_iff (some s) trusted in
      let at = trusted_at limit exact mark start rs r b m in
      (λ h. let live = only h in omega (arith, live, at), λ h. if (a, omega (arith, at, h)))
