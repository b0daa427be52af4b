-- ===== src/Session.antt =====
-- agent/src/session.rs: the pure session state machine. A function that takes `&mut` returns the
-- new value in front of its result.
pub mod Enforcement
pub mod Messages
use taymna.Common.{
  ◌≡◌, ◌↔◌, Bool, true, false, ◌&&◌, Option, none, some, arith, DateTime, ltb, leb, if◌then◌else◌,
}
use taymna.Common.Equality.{PartialEq, ◌==◌}
use taymna.Common.Text.{Str}

pub data SessionStatus : Type 0 where
  active expired ended : SessionStatus

abbrev pub status_beq : SessionStatus → SessionStatus → Bool
status_beq active active = true
status_beq expired expired = true
status_beq ended ended = true
status_beq _ _ = false

pub status_beq_iff : (a b : SessionStatus) → (status_beq a b ≡ true) ↔ (a ≡ b)
status_beq_iff a b = ground arith

instance abbrev pub status_eq : PartialEq SessionStatus
status_eq = record { eq_iff = status_beq_iff; eq = status_beq }

pub record SessionSnapshot : Type 0 where
  pub id : Str
  pub started_at : DateTime
  pub expires_at : DateTime
  pub status : SessionStatus
  pub updated_at : DateTime

pub data Desired : Type 0 where
  allowed blocked : Desired

-- The new session, the new `last_applied_at`, and whether the message was applied.
unfoldable pub apply_server_message :
    Option SessionSnapshot
    → DateTime
    → Option SessionSnapshot
    → DateTime
    → Option SessionSnapshot × DateTime × Bool
apply_server_message current_session last_applied_at incoming message_time =
    if leb message_time last_applied_at
    then (current_session, last_applied_at, false)
    else (incoming, message_time, true)

-- The first half of `advance`: an active session past its deadline is marked as expired.
expire : Option SessionSnapshot → DateTime → Option SessionSnapshot
expire none trusted_now = none
expire (some s) trusted_now =
    if s.status == active && leb s.expires_at trusted_now
    then some (record s { status = expired })
    else some s

-- The second half: what the platform layer should guarantee.
judge : Option SessionSnapshot → DateTime → Desired
judge none trusted_now = blocked
judge (some s) trusted_now =
    if s.status == active && ltb trusted_now s.expires_at then allowed else blocked

unfoldable pub advance : Option SessionSnapshot → DateTime → Option SessionSnapshot × Desired
unfolding expire judge
advance session trusted_now =
    let session' = expire session trusted_now in (session', judge session' trusted_now)
