-- ===== src/Warning.antt =====
-- agent/src/warning.rs: which expiry warning, if any, is due on a tick, and `Urgency` and `Notice`
-- of agent/src/platform/mod.rs, which it produces.
pub mod Announced
pub mod Cases
pub mod CountDown
pub mod Ladder
pub mod Notices
pub mod Screen
pub mod Thresholds
use Thresholds
use taymna.Common.{
  ℕ, zero, suc, ◌+◌, ◌/◌, ◌≡◌, ◌↔◌, Bool, true, false, not, ◌&&◌, Option, none, some, List, [], ◌∷◌,
  ◌++◌, arith, DateTime, leb, if◌then◌else◌,
}
use taymna.Common.Equality.{PartialEq, ◌==◌, nat_eq, list_eq, option_eq, ==_iff}
use taymna.Common.Int.{ℤ, pos, negsuc, sub_ℕ, leb_ℤ, tdiv, ◌+ℤ◌}
use taymna.Common.Text.{Str, codes, to_string}
use taymna.Session.{SessionSnapshot, active, status_eq}

pub data Level : Type 0 where
  ten_minutes five_minutes one_minute final : Level

-- The derived `Ord`: the position of the variant.
abbrev pub rank : Level → ℕ
rank ten_minutes = 1
rank five_minutes = 2
rank one_minute = 3
rank final = 4

pub data Urgency : Type 0 where
  normal critical : Urgency

pub record Notice : Type 0 where
  pub title : Str
  pub body : Str
  pub urgency : Urgency

pub data WarningEffect : Type 0 where
  notify : Notice → WarningEffect
  show_final_warning : ℤ → WarningEffect
  dismiss_final_warning : WarningEffect

pub record DeadlineKey : Type 0 where
  pub session_id : Str
  pub expires_at : DateTime

abbrev pub key_beq : DeadlineKey → DeadlineKey → Bool
key_beq a b = a.session_id == b.session_id && a.expires_at == b.expires_at

pub key_beq_iff : (a b : DeadlineKey) → (key_beq a b ≡ true) ↔ (a ≡ b)
key_beq_iff a b = ground (arith, ==_iff a.session_id b.session_id)

instance abbrev pub key_eq : PartialEq DeadlineKey
key_eq = record { eq_iff = key_beq_iff; eq = key_beq }

pub record ExpiryWarnings : Type 0 where
  pub key : Option DeadlineKey
  pub fired : Option Level
  pub last_seen : Option DateTime
  pub final_visible : Bool

-- `ExpiryWarnings::new`, the derived default.
unfoldable pub new : ExpiryWarnings
new = record { key = none; fired = none; last_seen = none; final_visible = false }

-- The level that a continuously running agent crosses into.
unfoldable pub level_for : ℤ → Option Level
level_for remaining =
    if leb_ℤ remaining (pos Thresholds.final)
    then some final
    else if leb_ℤ remaining (pos Thresholds.one_minute)
    then some one_minute
    else if leb_ℤ remaining (pos Thresholds.five_minutes)
    then some five_minutes
    else if leb_ℤ remaining (pos Thresholds.ten_minutes)
    then some ten_minutes
    else none

unfoldable pub arriving_late_level : ℤ → Option Level
arriving_late_level remaining =
    if leb_ℤ remaining (pos Thresholds.one_minute) then some final else level_for remaining

abbrev pub plural : ℤ → Str
plural (pos (suc zero)) = codes ""
plural _ = codes "s"

abbrev pub body_of : Level → Str
body_of ten_minutes =
    codes "Your Taymna session will end soon. Save your work before time runs out."
body_of five_minutes =
    codes "Save your work and sign out of your accounts before this computer locks."
body_of _ = codes "Your session is about to end. Save your work and sign out now."

abbrev pub urgency_of : Level → Urgency
urgency_of ten_minutes = normal
urgency_of five_minutes = normal
urgency_of _ = critical

-- The nearest minute, of an `i64`.
unfoldable pub minutes : ℤ → ℤ
unfolding tdiv ◌+ℤ◌
minutes remaining = tdiv (remaining +ℤ pos 30) 60

-- The `format!` of the title.
unfoldable pub headline : ℤ → Str
unfolding to_string
headline m = to_string m ++ (codes " minute" ++ (plural m ++ codes " remaining"))

unfoldable pub notice_for : Level → ℤ → Notice
unfolding minutes headline
notice_for level remaining = record {
  title = headline (minutes remaining);
  body = body_of level;
  urgency = urgency_of level;
}

abbrev pub key_of : Option SessionSnapshot → Option DeadlineKey
key_of none = none
key_of (some s) =
    if s.status == active
    then some (record { session_id = s.id; expires_at = s.expires_at })
    else none

-- `&mut self` and `&mut effects` are passed and returned.
unfoldable pub dismiss_final :
    ExpiryWarnings → List WarningEffect → ExpiryWarnings × List WarningEffect
dismiss_final w effects =
    if w.final_visible
    then (record w { final_visible = false }, effects ++ dismiss_final_warning ∷ [])
    else (w, effects)

-- A new deadline, or none, starts over.
unfoldable pub rekey :
    ExpiryWarnings → Option DeadlineKey → List WarningEffect → ExpiryWarnings × List WarningEffect
unfolding dismiss_final
rekey w key effects =
    if not (key == w.key)
    then (let (w', effects') = dismiss_final w effects in
        (record w' { key = key; fired = none; last_seen = none }, effects'))
    else (w, effects)

-- The `match level` at the end of `reconcile`.
announce : ExpiryWarnings → List WarningEffect → Level → ℤ → ExpiryWarnings × List WarningEffect
announce w effects final remaining =
    (record w { final_visible = true }, effects ++ show_final_warning remaining ∷ [])
announce w effects level remaining = (w, effects ++ notify (notice_for level remaining) ∷ [])

-- `self.fired.is_some_and(|already| level <= already)`.
abbrev pub already_fired : Option Level → Level → Bool
already_fired none level = false
already_fired (some already) level = leb (rank level) (rank already)

unfoldable pub fire :
    ExpiryWarnings → List WarningEffect → Level → ℤ → ExpiryWarnings × List WarningEffect
unfolding announce
fire w effects level remaining =
    if already_fired w.fired level
    then (w, effects)
    else announce (record w { fired = some level }) effects level remaining

-- `num_seconds` is chrono's `TimeDelta::num_seconds`, of a duration in nanoseconds.
module _ (num_seconds : ℤ → ℤ) where
  abbrev pub arrived_late : Option DateTime → DateTime → Bool
  arrived_late none now = true
  arrived_late (some last) now =
      not (leb_ℤ (num_seconds (sub_ℕ now last)) (pos Thresholds.continuity_gap))

  -- The level that is due, if any.
  abbrev pub due : Option DateTime → DateTime → ℤ → Option Level
  due previous now remaining =
      if arrived_late previous now then arriving_late_level remaining else level_for remaining

  -- The part of `reconcile` behind `let Some(deadline) = …`.
  unfoldable pub evaluate :
      Option DeadlineKey
      → ExpiryWarnings
      → List WarningEffect
      → DateTime
      → ExpiryWarnings × List WarningEffect
  unfolding dismiss_final level_for arriving_late_level fire
  evaluate none w effects now = (w, effects)
  evaluate (some deadline) w effects now =
      let remaining = num_seconds (sub_ℕ deadline.expires_at now) in
      let seen : ExpiryWarnings = record w { last_seen = some now } in
      if leb_ℤ remaining (pos 0)
      then dismiss_final seen effects
      else elim (due w.last_seen now remaining) [
        | none ↦ (seen, effects)
        | some level ↦ fire seen effects level remaining
      ]

  unfoldable pub reconcile :
      ExpiryWarnings → Option SessionSnapshot → DateTime → ExpiryWarnings × List WarningEffect
  unfolding rekey evaluate
  reconcile w session now =
      let (w', effects) = rekey w (key_of session) [] in evaluate w'.key w' effects now
