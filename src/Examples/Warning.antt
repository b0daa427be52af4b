-- ===== src/Examples/Warning.antt =====
-- The theorems of Warning at concrete inputs.
use taymna.Common.{none, ◌≡◌, ◌≤◌, refl, arith, true, some, List, [], ◌∷◌, All}
use taymna.Common.Int.{pos, sub_ℕ, ◌<ℤ◌}
use taymna.Common.Text.{codes}
use taymna.Session.{SessionSnapshot, active, blocked, advance}
use taymna.Warning.{final, DeadlineKey, ExpiryWarnings, new, level_for, key_of, reconcile}
use taymna.Warning.Ladder.{shown, finals}
use taymna.Warning.CountDown.{Tick, count_down, count_down_bounded}
use taymna.Warning.Announced.{AnnouncedFrom, count_down-announces}
use taymna.Warning.Screen.{IsConsistent}
use taymna.Warning.Notices.{IsHonest, reconcile-IsHonest}
use taymna.Examples.Codec.{seconds}

-- Ends 3600 seconds after the first instant.
abbrev an_hour : SessionSnapshot
an_hour = record {
  id = codes "s1";
  started_at = 0;
  expires_at = 3600000000000;
  status = active;
  updated_at = 0;
}

nothing_fired : new.fired ≡ none
unfolding new
nothing_fired = refl

abbrev key : DeadlineKey
key = record { session_id = codes "s1"; expires_at = 3600000000000 }

-- The final warning is up.
abbrev at_the_end : ExpiryWarnings
at_the_end = record {
  key = some key;
  fired = some final;
  last_seen = some 3580000000000;
  final_visible = true;
}

at_the_end-IsConsistent : IsConsistent at_the_end
at_the_end-IsConsistent = ground arith

-- Eleven minutes, nine minutes, 45 seconds and 20 seconds before the deadline.
abbrev ticks : List Tick
ticks =
    (some an_hour, 2940000000000)
    ∷ (some an_hour, 3060000000000)
    ∷ (some an_hour, 3555000000000)
    ∷ (some an_hour, 3580000000000)
    ∷ []

an_hour_known : key_of (some an_hour) ≡ some key
an_hour_known = refl

count_down_bounded_example :
    let es = (count_down seconds new ticks).1 in (shown es ≤ 4) × (finals es ≤ 1)
count_down_bounded_example =
    count_down_bounded seconds (some key) new ticks (refl, (refl, (refl, (refl, tt))))

time_left : pos 0 <ℤ seconds (sub_ℕ 3600000000000 3555000000000)
unfolding seconds
time_left = omega arith

count_down-announces_example :
    AnnouncedFrom
      (level_for (seconds (sub_ℕ 3600000000000 3555000000000)))
      (count_down seconds new
        ((some an_hour, 3060000000000) ∷ (some an_hour, 3555000000000) ∷ [])).1
count_down-announces_example =
    count_down-announces seconds new ((some an_hour, 3060000000000) ∷ []) (some an_hour)
      3555000000000 key nothing_fired (an_hour_known, (an_hour_known, tt)) time_left

expired_at_the_end : (advance (some an_hour) 3600000000000).1 ≡ blocked
unfolding advance
expired_at_the_end = refl

reconcile-IsHonest_example :
    All
      (IsHonest (seconds (sub_ℕ 3600000000000 3060000000000)))
      (reconcile seconds new (some an_hour) 3060000000000).1
reconcile-IsHonest_example =
    reconcile-IsHonest seconds new (some an_hour) 3060000000000 key an_hour_known
