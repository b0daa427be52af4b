-- ===== src/Examples/Session.antt =====
-- The theorems of Session at concrete inputs.
use mathlib.Core.List.{Perm}
use mathlib.Core.List.Perm.{swap}
use taymna.Common.{◌≡◌, ◌+◌, ℕ, refl, Option, some, [], ◌∷◌, DateTime, if◌then◌else◌, leb}
use taymna.Common.Text.{codes}
use taymna.Session.{SessionSnapshot, active, blocked, advance}
use taymna.Session.Messages.{receive_all, pushes, latest, receive_all-latest}

-- An hour that began at 1000.
abbrev an_hour : SessionSnapshot
an_hour = record {
  id = codes "s1";
  started_at = 1000;
  expires_at = 4600;
  status = active;
  updated_at = 1000;
}

abbrev report : DateTime → Option SessionSnapshot
report time = some (record an_hour { expires_at = time + 3600; updated_at = time })

expired_at_4600 : (advance (some an_hour) 4600).1 ≡ blocked
unfolding advance
expired_at_4600 = refl

receive_all-latest_example :
    let newest = latest 1000 (1500 ∷ 3000 ∷ 2000 ∷ []) in
    receive_all (some an_hour, 1000) (pushes report (1500 ∷ 3000 ∷ 2000 ∷ []))
    ≡ (if leb newest 1000 then some an_hour else report newest, newest)
receive_all-latest_example = receive_all-latest report (some an_hour) 1000 (1500 ∷ 3000 ∷ 2000 ∷ [])

swapped : Perm {A = ℕ} (3000 ∷ 2000 ∷ []) (2000 ∷ 3000 ∷ [])
swapped = swap 2000 3000 []
