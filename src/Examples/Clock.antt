-- ===== src/Examples/Clock.antt =====
-- The theorems of Clock at concrete inputs.
use taymna.Common.{◌+◌, ◌≡◌, ◌↔◌, ◌<◌, refl, arith, some, [], ◌∷◌}
use taymna.Common.Text.{codes}
use taymna.Session.{SessionSnapshot, active, allowed, advance}
use taymna.Clock.{ClockGuard, Reading, new, now}
use taymna.Clock.Rollback.{IsExactUpTo, gaps, last_anchor, now_all, now_all_rollback}
use taymna.Clock.Restart.{restart_uncounted}

abbrev guard : ClockGuard
guard = record { high_water_mark = 1000; anchor = 10 }

-- The OS clock was set back by 900.
abbrev set_back : Reading
set_back = record { os_now = 100; elapsed_at = 60; anchored_at = 61 }

abbrev later : Reading
later = record { os_now = 150; elapsed_at = 111; anchored_at = 112 }

abbrev session : SessionSnapshot
session = record {
  id = codes "s1";
  started_at = 500;
  expires_at = 1100;
  status = active;
  updated_at = 500;
}

some-IsExactUpTo : IsExactUpTo 1000 some
some-IsExactUpTo d h = refl

now_all_rollback_example :
    (now_all some guard (set_back ∷ later ∷ [])).high_water_mark + gaps (set_back ∷ later ∷ []) + 10
    ≡ 1000 + last_anchor 10 (set_back ∷ later ∷ [])
now_all_rollback_example =
    now_all_rollback some 1000 some-IsExactUpTo 1000 guard (set_back ∷ later ∷ []) (omega arith)
      (omega arith, (omega arith, tt))
      (omega arith, omega arith, omega arith, (omega arith, omega arith, omega arith, tt))

restart_uncounted_example :
    let trusted = (now some (now_all some (new 1000 10) (set_back ∷ [])) later).1 in
    ((advance (some session) trusted).1 ≡ allowed) ↔ (1000 + 111 < 1100 + 1 + 10)
restart_uncounted_example =
    restart_uncounted some 1000 some-IsExactUpTo session 1000 10 (set_back ∷ []) later refl
      (omega arith, (omega arith, tt))
      (omega arith, omega arith, omega arith, (omega arith, omega arith, omega arith, tt))
