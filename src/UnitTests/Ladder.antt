-- ===== src/UnitTests/Ladder.antt =====
-- agent/src/warning.rs, `mod tests`: the thresholds, the countdown, and what is announced when the
-- agent starts late.
use taymna.Common.{
  ℕ, zero, suc, ◌+◌, ◌-◌, ◌≡◌, refl, Option, none, some, List, [], ◌∷◌, ◌++◌, map, DateTime,
}
use taymna.Common.Int.{pos}
use taymna.Common.Text.{Str, codes}
use taymna.Session.{SessionSnapshot, active}
use taymna.Warning.{
  Level, ten_minutes, five_minutes, one_minute, final, critical, WarningEffect, notify,
  show_final_warning, dismiss_final_warning, ExpiryWarnings, new, level_for, arriving_late_level,
  notice_for, reconcile,
}
use taymna.Examples.Codec.{seconds}
use taymna.UnitTests.{seconds_of, minutes_of}

-- Some instant, and a session that ends then.
abbrev pub base : DateTime
base = seconds_of 1000000

abbrev pub session : Str → DateTime → SessionSnapshot
session id expires_at = record {
  id = id;
  started_at = expires_at - minutes_of 60;
  expires_at = expires_at;
  status = active;
  updated_at = expires_at - minutes_of 60;
}

-- A tick with so many seconds left.
unfoldable pub tick_at : ExpiryWarnings → SessionSnapshot → ℕ → ExpiryWarnings × List WarningEffect
unfolding reconcile seconds
tick_at w s remaining = reconcile seconds w (some s) (s.expires_at - seconds_of remaining)

-- Ticks two seconds apart, `rounds` of them.
unfoldable pub count_down :
    ExpiryWarnings → SessionSnapshot → ℕ → ℕ → ExpiryWarnings × List WarningEffect
unfolding tick_at
count_down w s from zero = (w, [])
count_down w s from (suc rounds) =
    let (w', es) = tick_at w s from in
    let (w'', fs) = count_down w' s (from - 2) rounds in (w'', es ++ fs)

abbrev pub titles : List WarningEffect → List Str
titles [] = []
titles (notify n ∷ es) = n.title ∷ titles es
titles (_ ∷ es) = titles es

abbrev pub others : List WarningEffect → List WarningEffect
others [] = []
others (notify n ∷ es) = others es
others (e ∷ es) = e ∷ others es

abbrev last : List WarningEffect → Option WarningEffect
last [] = none
last (e ∷ []) = some e
last (_ ∷ f ∷ es) = last (f ∷ es)

abbrev two_hours : SessionSnapshot
two_hours = session (codes "s1") (base + minutes_of 120)

-- From eleven minutes to zero.
normal_countdown : List Str × List WarningEffect
unfolding count_down new notice_for
normal_countdown = let (w, es) = count_down new two_hours 660 331 in (titles es, others es)

normal_countdown_lem : normal_countdown ≡ (
  codes "10 minutes remaining" ∷ codes "5 minutes remaining" ∷ codes "1 minute remaining" ∷ [],
  show_final_warning (pos 30) ∷ dismiss_final_warning ∷ [],
)
unfolding normal_countdown
normal_countdown_lem = refl

-- Down to 32 seconds: the last effect.
one_minute_warning_is_critical : Option WarningEffect
unfolding count_down tick_at new notice_for
one_minute_warning_is_critical = last (count_down new two_hours 660 315).1

one_minute_warning_is_critical_lem :
    one_minute_warning_is_critical
    ≡ some (
        notify (record {
          title = codes "1 minute remaining";
          body = codes "Your session is about to end. Save your work and sign out now.";
          urgency = critical;
        }))
unfolding one_minute_warning_is_critical
one_minute_warning_is_critical_lem = refl

-- Ten minutes, then every two seconds from there on.
threshold_fires_once : List Str × List WarningEffect
unfolding count_down tick_at new notice_for
threshold_fires_once =
    let (w, first) = tick_at new two_hours 600 in (titles first, (count_down w two_hours 600 150).1)

threshold_fires_once_lem : threshold_fires_once ≡ (codes "10 minutes remaining" ∷ [], [])
unfolding threshold_fires_once
threshold_fires_once_lem = refl

late_tick_still_fires : List Str × List Str
unfolding count_down tick_at new notice_for
late_tick_still_fires =
    let (w, es) = count_down new two_hours 610 154 in
    (titles es, titles (tick_at w two_hours 299).1)

late_tick_still_fires_lem :
    late_tick_still_fires ≡ (codes "10 minutes remaining" ∷ [], codes "5 minutes remaining" ∷ [])
unfolding late_tick_still_fires
late_tick_still_fires_lem = refl

starting_mid_window : List Str × List WarningEffect × List WarningEffect
unfolding count_down tick_at new notice_for
starting_mid_window =
    let s = session (codes "s1") (base + seconds_of 270) in
    let (w, es) = tick_at new s 270 in
    let (w', fs) = tick_at w s 268 in (titles es, fs, (tick_at w' s 30).1)

starting_mid_window_lem :
    starting_mid_window ≡ (codes "5 minutes remaining" ∷ [], [], show_final_warning (pos 30) ∷ [])
unfolding starting_mid_window
starting_mid_window_lem = refl

-- Every second from `n` down to one.
each_second : ExpiryWarnings → SessionSnapshot → ℕ → List WarningEffect
unfolding tick_at
each_second w s zero = []
each_second w s (suc n) = let (w', es) = tick_at w s (suc n) in es ++ each_second w' s n

starting_in_the_last_minute : List WarningEffect × List WarningEffect
unfolding each_second tick_at new notice_for
starting_in_the_last_minute =
    let s = session (codes "s1") (base + seconds_of 40) in
    let (w, es) = tick_at new s 40 in (es, each_second w s 39)

starting_in_the_last_minute_lem :
    starting_in_the_last_minute ≡ (show_final_warning (pos 40) ∷ [], [])
unfolding starting_in_the_last_minute
starting_in_the_last_minute_lem = refl

three_minute_session : List Str × List Str × List WarningEffect
unfolding count_down tick_at new notice_for
three_minute_session =
    let s = session (codes "short") (base + minutes_of 3) in
    let (w, es) = tick_at new s 180 in
    let fs = (count_down w s 178 90).1 in (titles es, titles fs, others fs)

three_minute_session_lem : three_minute_session ≡ (
  codes "3 minutes remaining" ∷ [],
  codes "1 minute remaining" ∷ [],
  show_final_warning (pos 30) ∷ dismiss_final_warning ∷ [],
)
unfolding three_minute_session
three_minute_session_lem = refl

twenty_second_session : List WarningEffect × List WarningEffect × List WarningEffect
unfolding count_down tick_at new notice_for
twenty_second_session =
    let s = session (codes "tiny") (base + seconds_of 20) in
    let (w, es) = tick_at new s 20 in let (w', fs) = tick_at w s 10 in (es, fs, (tick_at w' s 0).1)

twenty_second_session_lem :
    twenty_second_session ≡ (show_final_warning (pos 20) ∷ [], [], dismiss_final_warning ∷ [])
unfolding twenty_second_session
twenty_second_session_lem = refl

headlines : List Str
unfolding notice_for
headlines =
    map (λ n. n.title)
      (notice_for ten_minutes (pos 600)
        ∷ notice_for five_minutes (pos 299)
        ∷ notice_for five_minutes (pos 270)
        ∷ notice_for five_minutes (pos 180)
        ∷ notice_for one_minute (pos 61)
        ∷ [])

headlines_lem : headlines ≡ (
    codes "10 minutes remaining"
    ∷ codes "5 minutes remaining"
    ∷ codes "5 minutes remaining"
    ∷ codes "3 minutes remaining"
    ∷ codes "1 minute remaining"
    ∷ [])
unfolding headlines
headlines_lem = refl

levels : List (Option Level)
unfolding level_for
levels =
    map level_for
      (pos 601 ∷ pos 600 ∷ pos 301 ∷ pos 300 ∷ pos 61 ∷ pos 60 ∷ pos 31 ∷ pos 30 ∷ pos 1 ∷ [])

levels_lem : levels ≡ (
    none
    ∷ some ten_minutes
    ∷ some ten_minutes
    ∷ some five_minutes
    ∷ some five_minutes
    ∷ some one_minute
    ∷ some one_minute
    ∷ some final
    ∷ some final
    ∷ [])
unfolding levels
levels_lem = refl

late_levels : List (Option Level)
unfolding arriving_late_level level_for
late_levels = map arriving_late_level (pos 601 ∷ pos 600 ∷ pos 61 ∷ pos 60 ∷ pos 31 ∷ [])

late_levels_lem :
    late_levels ≡ (none ∷ some ten_minutes ∷ some five_minutes ∷ some final ∷ some final ∷ [])
unfolding late_levels
late_levels_lem = refl
