-- ===== src/Platform/Linux/Notifier/Expiry.antt =====
-- When the final warning goes away by itself.
use taymna.Common.{◌≡◌, refl, Option, some, List, [], ◌∷◌, arith, DateTime, All}
use taymna.Common.Int.{ℤ, pos, negsuc, sub_ℕ, ◌≤ℤ◌, ◌<ℤ◌}
use taymna.Common.Text.{to_string}
use taymna.Session.{SessionSnapshot}
use taymna.Warning.{
  WarningEffect, notify, show_final_warning, dismiss_final_warning, DeadlineKey, ExpiryWarnings,
  key_of, reconcile,
}
use taymna.Warning.Notices.{IsHonest, reconcile-IsHonest}
use taymna.Platform.Linux.Notifier.{expire_ms, times, clamp}

-- A final warning expires after exactly `r` seconds.
abbrev pub LastsFor : ℤ → WarningEffect → Type 0
LastsFor r (show_final_warning s) = expire_ms s ≡ to_string (times 1000 r)
LastsFor r _ = Unit {0}

clamp_lem : (r : ℤ) → pos 0 <ℤ r → r ≤ℤ pos 600 → clamp r ≡ r
clamp_lem (pos n) h k = ground arith
clamp_lem (negsuc n) h k = absurd (omega arith)

LastsFor-of_IsHonest : (r : ℤ) (e : WarningEffect) → IsHonest r e → LastsFor r e
unfolding expire_ms
LastsFor-of_IsHonest r (notify n) h = tt
LastsFor-of_IsHonest r (show_final_warning s) (e, p, q) = rw (e, clamp_lem r p (omega arith)) refl
LastsFor-of_IsHonest r dismiss_final_warning h = tt

All-LastsFor : (r : ℤ) (es : List WarningEffect) → All (IsHonest r) es → All (LastsFor r) es
All-LastsFor r [] h = tt
All-LastsFor r (e ∷ es) (h, hs) = (LastsFor-of_IsHonest r e h, All-LastsFor r es hs)

-- When there is an active session, the expiry time that is passed with the final warning of a tick
-- is exactly the seconds that the session has left, in milliseconds: the clamp never changes them.
pub reconcile-LastsFor :
    (num_seconds : ℤ → ℤ) (w : ExpiryWarnings) (session : Option SessionSnapshot) (now : DateTime)
    (d : DeadlineKey)
    → key_of session ≡ some d
    → All (LastsFor (num_seconds (sub_ℕ d.expires_at now))) (reconcile num_seconds w session now).1
reconcile-LastsFor num_seconds w session now d e =
    All-LastsFor _ _ (reconcile-IsHonest num_seconds w session now d e)
