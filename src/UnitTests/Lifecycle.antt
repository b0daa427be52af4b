-- ===== src/UnitTests/Lifecycle.antt =====
-- agent/src/warning.rs, `mod tests`: sessions that are extended, ended and replaced, and waking up.
use taymna.Common.{ℕ, ◌+◌, ◌-◌, ◌≡◌, refl, Option, none, some, List, [], ◌∷◌, ◌++◌, DateTime}
use taymna.Common.Int.{pos}
use taymna.Common.Text.{Str, codes}
use taymna.Session.{SessionSnapshot, expired, ended, Desired, allowed, blocked, advance}
use taymna.Warning.{
  WarningEffect, show_final_warning, dismiss_final_warning, ExpiryWarnings, new, notice_for,
  reconcile,
}
use taymna.Examples.Codec.{seconds}
use taymna.UnitTests.{seconds_of, minutes_of}
use taymna.UnitTests.Ladder.{base, session, tick_at, titles}

extending_resets_the_lifecycle : List Str × List WarningEffect × List Str × List Str
unfolding tick_at reconcile seconds new notice_for
extending_resets_the_lifecycle =
    let s = session (codes "s1") (base + minutes_of 5) in
    let extended : SessionSnapshot = record s { expires_at = s.expires_at + minutes_of 120 } in
    let (w, es) = tick_at new s 300 in
    let (w', fs) = tick_at w extended 7200 in
    let (w'', gs) = tick_at w' extended 600 in
    (titles es, fs, titles gs, titles (tick_at w'' extended 300).1)

extending_resets_the_lifecycle_lem : extending_resets_the_lifecycle ≡ (
  codes "5 minutes remaining" ∷ [],
  [],
  codes "10 minutes remaining" ∷ [],
  codes "5 minutes remaining" ∷ [],
)
unfolding extending_resets_the_lifecycle
extending_resets_the_lifecycle_lem = refl

extending_during_the_final_warning : List WarningEffect × List WarningEffect × List WarningEffect
unfolding tick_at reconcile seconds new notice_for
extending_during_the_final_warning =
    let s = session (codes "s1") (base + seconds_of 30) in
    let extended : SessionSnapshot = record s { expires_at = s.expires_at + minutes_of 60 } in
    let (w, es) = tick_at new s 30 in
    let (w', fs) = tick_at w extended 3600 in (es, fs, (tick_at w' extended 1800).1)

extending_during_the_final_warning_lem :
    extending_during_the_final_warning
    ≡ (show_final_warning (pos 30) ∷ [], dismiss_final_warning ∷ [], [])
unfolding extending_during_the_final_warning
extending_during_the_final_warning_lem = refl

ending_early : List WarningEffect × List WarningEffect × List WarningEffect
unfolding tick_at reconcile seconds new notice_for
ending_early =
    let s = session (codes "s1") (base + seconds_of 30) in
    let w = (tick_at new s 30).0 in
    let (w', es) = reconcile seconds w (some (record s { status = ended })) base in
    let (w'', fs) = reconcile seconds w' none base in
    (es, fs, (reconcile seconds w'' none (base + minutes_of 1)).1)

ending_early_lem : ending_early ≡ (dismiss_final_warning ∷ [], [], [])
unfolding ending_early
ending_early_lem = refl

replacement_starts_fresh : List Str × List Str
unfolding tick_at reconcile seconds new notice_for
replacement_starts_fresh =
    let first = session (codes "first") (base + minutes_of 5) in
    let (w, es) = tick_at new first 300 in
    (titles es, titles (tick_at w (session (codes "second") first.expires_at) 240).1)

replacement_starts_fresh_lem :
    replacement_starts_fresh ≡ (codes "5 minutes remaining" ∷ [], codes "4 minutes remaining" ∷ [])
unfolding replacement_starts_fresh
replacement_starts_fresh_lem = refl

repeated_session_state : List Str × List WarningEffect
unfolding tick_at reconcile seconds new notice_for
repeated_session_state =
    let s = session (codes "s1") (base + minutes_of 10) in
    let (w, es) = tick_at new s 600 in
    let repushed : SessionSnapshot = record s { updated_at = s.updated_at + minutes_of 1 } in
    (titles es, (tick_at w repushed 540).1)

repeated_session_state_lem : repeated_session_state ≡ (codes "10 minutes remaining" ∷ [], [])
unfolding repeated_session_state
repeated_session_state_lem = refl

waking_after_expiry : Option SessionSnapshot × Desired × List WarningEffect × List WarningEffect
unfolding tick_at reconcile seconds new notice_for advance
waking_after_expiry =
    let s = session (codes "s1") (base + minutes_of 8) in
    let woke_at = s.expires_at + minutes_of 2 in
    let (held, desired) = advance (some s) woke_at in
    (
      held,
      desired,
      (reconcile seconds new held woke_at).1,
      (reconcile seconds new (some s) woke_at).1,
    )

waking_after_expiry_lem : waking_after_expiry ≡ (
  some (record (session (codes "s1") (base + minutes_of 8)) { status = expired }),
  blocked,
  [],
  [],
)
unfolding waking_after_expiry
waking_after_expiry_lem = refl

waking_in_the_last_minute : List Str × List WarningEffect × List WarningEffect
unfolding tick_at reconcile seconds new notice_for
waking_in_the_last_minute =
    let s = session (codes "s1") (base + minutes_of 8) in
    let (w, es) = tick_at new s 480 in
    let (w', fs) = tick_at w s 40 in (titles es, fs, (tick_at w' s 20).1)

waking_in_the_last_minute_lem :
    waking_in_the_last_minute
    ≡ (codes "8 minutes remaining" ∷ [], show_final_warning (pos 40) ∷ [], [])
unfolding waking_in_the_last_minute
waking_in_the_last_minute_lem = refl

-- What ticks with so many seconds left answer and announce, and what is then held. The effects go to
-- a notifier that does nothing.
answers :
    ExpiryWarnings
    → Option SessionSnapshot
    → DateTime
    → List ℕ
    → List Desired × List WarningEffect × Option SessionSnapshot
unfolding advance reconcile seconds
answers w held expires_at [] = ([], [], held)
answers w held expires_at (remaining ∷ more) =
    let now = expires_at - seconds_of remaining in
    let (held', desired) = advance held now in
    let (w', es) = reconcile seconds w held' now in
    let (ds, fs, end) = answers w' held' expires_at more in (desired ∷ ds, es ++ fs, end)

failing_notifier_changes_nothing : List Desired × Option SessionSnapshot × Desired
unfolding answers new
failing_notifier_changes_nothing =
    let s = session (codes "s1") (base + minutes_of 11) in
    let (ds, es, held) = answers new (some s) s.expires_at (660 ∷ 600 ∷ 300 ∷ 60 ∷ 30 ∷ 10 ∷ []) in
    let (end, desired) = advance held s.expires_at in (ds, end, desired)

failing_notifier_changes_nothing_lem : failing_notifier_changes_nothing ≡ (
  allowed ∷ allowed ∷ allowed ∷ allowed ∷ allowed ∷ allowed ∷ [],
  some (record (session (codes "s1") (base + minutes_of 11)) { status = expired }),
  blocked,
)
unfolding failing_notifier_changes_nothing advance
failing_notifier_changes_nothing_lem = refl
