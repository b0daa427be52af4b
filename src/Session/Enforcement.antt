-- ===== src/Session/Enforcement.antt =====
-- What `advance` decides, and what consecutive ticks do.
use taymna.Common.{◌<◌, ◌≡◌, ◌↔◌, Option, none, some, List, [], ◌∷◌, arith, DateTime, All}
use taymna.Session.{SessionSnapshot, active, Desired, allowed, blocked, advance}

-- A session that makes the machine usable at an instant.
abbrev pub IsLive : Option SessionSnapshot → DateTime → Type 0
IsLive none now = ⊥
IsLive (some s) now = (s.status ≡ active) × (now < s.expires_at)

-- `advance` answers `Allowed` exactly when there is an active session whose deadline lies ahead.
pub advance-allowed_iff :
    (session : Option SessionSnapshot) (now : DateTime)
    → ((advance session now).1 ≡ allowed) ↔ IsLive session now
unfolding advance
advance-allowed_iff none now = ground arith
advance-allowed_iff (some s) now = ground arith

-- The answers of consecutive ticks between which no message arrives.
unfoldable pub ticks : Option SessionSnapshot → List DateTime → List Desired
ticks session [] = []
ticks session (now ∷ later) =
    let (session', desired) = advance session now in desired ∷ ticks session' later

-- No status but `ACTIVE` is ever turned into an allowing one.
abbrev IsOver : Option SessionSnapshot → Type 0
IsOver none = Unit {0}
IsOver (some s) = ¬ (s.status ≡ active)

advance-IsOver :
    (session : Option SessionSnapshot) (now : DateTime)
    → (advance session now).1 ≡ blocked
    → IsOver (advance session now).0
unfolding advance
advance-IsOver none now h = tt
advance-IsOver (some s) now h = ground arith

advance_of_IsOver :
    (session : Option SessionSnapshot) (now : DateTime)
    → IsOver session
    → ((advance session now).1 ≡ blocked) × IsOver (advance session now).0
unfolding advance
advance_of_IsOver none now h = ground arith
advance_of_IsOver (some s) now h = ground arith

ticks_of_IsOver :
    (session : Option SessionSnapshot) (times : List DateTime)
    → IsOver session
    → All (λ d. d ≡ blocked) (ticks session times)
unfolding ticks
ticks_of_IsOver session [] h = tt
ticks_of_IsOver session (now ∷ later) h =
    let (still, over) = advance_of_IsOver session now h in
    (still, ticks_of_IsOver (advance session now).0 later over)

-- Once a tick has blocked the machine, every later tick blocks it too while no message arrives,
-- whatever the later clock readings are, also if they are earlier ones.
pub advance-ticks_blocked :
    (session : Option SessionSnapshot) (now : DateTime) (times : List DateTime)
    → (advance session now).1 ≡ blocked
    → All (λ d. d ≡ blocked) (ticks (advance session now).0 times)
advance-ticks_blocked session now times h =
    ticks_of_IsOver (advance session now).0 times (advance-IsOver session now h)
