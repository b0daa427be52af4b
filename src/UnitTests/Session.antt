-- ===== src/UnitTests/Session.antt =====
-- agent/src/session.rs, `mod tests`.
use taymna.Common.{◌+◌, ◌-◌, ◌≡◌, refl, Bool, true, false, Option, none, some, arith, DateTime}
use taymna.Common.Text.{codes}
use taymna.Session.{
  SessionStatus, active, expired, ended, SessionSnapshot, Desired, allowed, blocked,
  apply_server_message, advance,
}
use taymna.UnitTests.{seconds_of, minutes_of}

abbrev snapshot : SessionStatus → DateTime → DateTime → DateTime → SessionSnapshot
snapshot status expires_at updated_at now = record {
  id = codes "session-1";
  started_at = now - minutes_of 1;
  expires_at = expires_at;
  status = status;
  updated_at = updated_at;
}

no_session_is_blocked : DateTime → Desired
no_session_is_blocked now = (advance none now).1

no_session_is_blocked_lem : (now : DateTime) → no_session_is_blocked now ≡ blocked
unfolding no_session_is_blocked advance
no_session_is_blocked_lem now = refl

active_session_before_expiry_is_allowed : DateTime → Desired
active_session_before_expiry_is_allowed now =
    (advance (some (snapshot active (now + minutes_of 10) now now)) now).1

active_session_before_expiry_is_allowed_lem :
    (now : DateTime) → active_session_before_expiry_is_allowed now ≡ allowed
unfolding active_session_before_expiry_is_allowed advance
active_session_before_expiry_is_allowed_lem now = ground arith

active_session_past_expiry : DateTime → Option SessionSnapshot × Desired
active_session_past_expiry now = advance (some (snapshot active (now - seconds_of 1) now now)) now

active_session_past_expiry_lem :
    (now : DateTime)
    → active_session_past_expiry now
      ≡ (some (snapshot expired (now - seconds_of 1) now now), blocked)
unfolding active_session_past_expiry advance
active_session_past_expiry_lem now = ground arith

ended_session_is_blocked : DateTime → Desired
ended_session_is_blocked now = (advance (some (snapshot ended (now + minutes_of 10) now now)) now).1

ended_session_is_blocked_lem : (now : DateTime) → ended_session_is_blocked now ≡ blocked
unfolding ended_session_is_blocked advance
ended_session_is_blocked_lem now = ground arith

-- A session that runs from `started` for some minutes.
abbrev lasting : DateTime → DateTime → SessionSnapshot
lasting started expires_at = record {
  id = codes "s";
  started_at = started;
  expires_at = expires_at;
  status = active;
  updated_at = started;
}

disconnected_expiry : DateTime → Desired × Desired
disconnected_expiry started =
    let (session, before) =
      advance (some (lasting started (started + minutes_of 30))) (started + minutes_of 29) in
    (before, (advance session (started + minutes_of 31)).1)

disconnected_expiry_lem : (started : DateTime) → disconnected_expiry started ≡ (allowed, blocked)
unfolding disconnected_expiry advance
disconnected_expiry_lem started = ground arith

restarting_does_not_reset_the_timer : DateTime → Desired
restarting_does_not_reset_the_timer started_long_ago =
    (advance (some (lasting started_long_ago (started_long_ago + minutes_of 30)))
      (started_long_ago + minutes_of 60)).1

restarting_does_not_reset_the_timer_lem :
    (started : DateTime) → restarting_does_not_reset_the_timer started ≡ blocked
unfolding restarting_does_not_reset_the_timer advance
restarting_does_not_reset_the_timer_lem started = ground arith

extending_pushes_expiry_out : DateTime → Desired × Desired
extending_pushes_expiry_out started =
    let (session, before) =
      advance (some (lasting started (started + minutes_of 5))) (started + minutes_of 6) in
    let extended : SessionSnapshot = record (lasting started (started + minutes_of 20)) {
      updated_at = started + minutes_of 6;
    } in
    let (session', last, applied) =
      apply_server_message session started (some extended) (started + minutes_of 6) in
    (before, (advance session' (started + minutes_of 10)).1)

extending_pushes_expiry_out_lem :
    (started : DateTime) → extending_pushes_expiry_out started ≡ (blocked, allowed)
unfolding extending_pushes_expiry_out advance apply_server_message
extending_pushes_expiry_out_lem started = ground arith

stale_message_is_rejected : DateTime → Option SessionSnapshot × DateTime × Bool
stale_message_is_rejected base =
    apply_server_message (some (snapshot active (base + minutes_of 30) base base)) base
      (some (snapshot ended (base + minutes_of 30) (base - seconds_of 5) base))
      (base - seconds_of 5)

stale_message_is_rejected_lem :
    (base : DateTime)
    → stale_message_is_rejected base
      ≡ (some (snapshot active (base + minutes_of 30) base base), base, false)
unfolding stale_message_is_rejected apply_server_message
stale_message_is_rejected_lem base = ground arith

newer_message_of_no_session_is_applied : DateTime → Option SessionSnapshot × DateTime × Bool
newer_message_of_no_session_is_applied base =
    apply_server_message (some (snapshot active (base + minutes_of 30) base base)) base none
      (base + seconds_of 5)

newer_message_of_no_session_is_applied_lem :
    (base : DateTime)
    → newer_message_of_no_session_is_applied base ≡ (none, base + seconds_of 5, true)
unfolding newer_message_of_no_session_is_applied apply_server_message
newer_message_of_no_session_is_applied_lem base = ground arith

reconciliation_prefers_the_servers_view : DateTime → Option SessionSnapshot × DateTime × Bool
reconciliation_prefers_the_servers_view base =
    apply_server_message (some (snapshot expired (base - minutes_of 5) base base)) base
      (some (snapshot expired (base - minutes_of 5) (base + seconds_of 1) base))
      (base + seconds_of 1)

reconciliation_prefers_the_servers_view_lem :
    (base : DateTime)
    → reconciliation_prefers_the_servers_view base ≡ (
      some (snapshot expired (base - minutes_of 5) (base + seconds_of 1) base),
      base + seconds_of 1,
      true,
    )
unfolding reconciliation_prefers_the_servers_view apply_server_message
reconciliation_prefers_the_servers_view_lem base = ground arith
