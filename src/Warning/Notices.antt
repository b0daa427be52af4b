-- ===== src/Warning/Notices.antt =====
-- What the warnings tell the user.
use taymna.Common.{
  ℕ, ◌+◌, ◌*◌, ◌/◌, ◌≤◌, ◌≡◌, ◌∙◌, refl, ap, Option, some, List, [], ◌∷◌, arith, DateTime, All,
  All-append,
}
use taymna.Common.Int.{ℤ, pos, negsuc, sub_ℕ, ◌≤ℤ◌, ◌<ℤ◌, ◌+ℤ◌}
use taymna.Session.{SessionSnapshot}
use taymna.Warning.Cases.{rekey_cases, evaluate_cases}
use taymna.Warning.Ladder.{rekey-Progress}
use taymna.Warning.{
  Level, final, ten_minutes, five_minutes, one_minute, WarningEffect, notify, show_final_warning,
  dismiss_final_warning, notice_for, headline, minutes, DeadlineKey, ExpiryWarnings, level_for,
  arriving_late_level, due, key_of, dismiss_final, rekey, fire, evaluate, reconcile,
}

minutes-pos : (n : ℕ) → minutes (pos n) ≡ pos ((n + 30) / 60)
unfolding minutes
minutes-pos n = ground arith

-- With `r` seconds left, a notification's title names a number of whole minutes from 1 to 10 that
-- is within half a minute of the time left, and a final warning carries the seconds left, at most
-- a minute of them.
abbrev pub IsHonest : ℤ → WarningEffect → Type 0
IsHonest r (notify n) =
    (m : ℕ) × (n.title ≡ headline (pos m))
    × (1 ≤ m)
    × (m ≤ 10)
    × (pos (60 * m) ≤ℤ r +ℤ pos 30)
    × (r ≤ℤ pos (60 * m + 30))
IsHonest r (show_final_warning s) = (s ≡ r) × (pos 0 <ℤ r) × (r ≤ℤ pos 60)
IsHonest r dismiss_final_warning = Unit {0}

notice_for-IsHonest :
    (level : Level) (r : ℤ) → pos 30 <ℤ r → r ≤ℤ pos 600 → IsHonest r (notify (notice_for level r))
unfolding notice_for ◌+ℤ◌
notice_for-IsHonest level (pos n) h k = (
  (n + 30) / 60,
  ap headline (minutes-pos n),
  omega arith,
  omega arith,
  ground arith,
  omega arith,
)
notice_for-IsHonest level (negsuc n) h k = absurd (omega arith)

dismiss_final-IsHonest :
    (r : ℤ) (w : ExpiryWarnings) (es : List WarningEffect)
    → All (IsHonest r) es
    → All (IsHonest r) (dismiss_final w es).1
unfolding dismiss_final
dismiss_final-IsHonest r w es h =
    let longer = All-append (IsHonest r) es (dismiss_final_warning ∷ []) h (tt, tt) in ground arith

-- The times at which a level may be announced.
abbrev IsTimely : Level → ℤ → Type 0
IsTimely final r = r ≤ℤ pos 60
IsTimely _ r = (pos 30 <ℤ r) × (r ≤ℤ pos 600)

fire-IsHonest :
    (w : ExpiryWarnings) (es : List WarningEffect) (level : Level) (r : ℤ)
    → pos 0 <ℤ r
    → IsTimely level r
    → All (IsHonest r) es
    → All (IsHonest r) (fire w es level r).1
unfolding fire
fire-IsHonest w es final r p q h =
    let longer = All-append (IsHonest r) es (show_final_warning r ∷ []) h ((refl, p, q), tt) in
    ground arith
fire-IsHonest w es level r p q h =
    let honest = notice_for-IsHonest level r q.0 q.1 in
    let longer = All-append (IsHonest r) es (notify (notice_for level r) ∷ []) h (honest, tt) in
    ground arith

module _ (num_seconds : ℤ → ℤ) where
  due-IsTimely :
      (previous : Option DateTime) (now : DateTime) (r : ℤ) (level : Level)
      → due num_seconds previous now r ≡ some level
      → IsTimely level r
  unfolding level_for arriving_late_level
  due-IsTimely previous now r ten_minutes h = ground arith
  due-IsTimely previous now r five_minutes h = ground arith
  due-IsTimely previous now r one_minute h = ground arith
  due-IsTimely previous now r final h = ground arith

  evaluate-IsHonest :
      (d : DeadlineKey) (w : ExpiryWarnings) (es : List WarningEffect) (now : DateTime)
      → let r = num_seconds (sub_ℕ d.expires_at now) in
        All (IsHonest r) es → All (IsHonest r) (evaluate num_seconds (some d) w es now).1
  evaluate-IsHonest d w es now h =
      let r = num_seconds (sub_ℕ d.expires_at now) in
      let seen : ExpiryWarnings = record w { last_seen = some now } in
      evaluate_cases num_seconds (λ p. All (IsHonest r) p.1) d w es now
        (λ _. dismiss_final-IsHonest r seen es h) (λ _ _. h)
        (λ level p q. fire-IsHonest seen es level r p (due-IsTimely w.last_seen now r level q) h)

  -- When there is an active session, every warning of a tick is honest about the time left: a
  -- notification names a number of minutes from 1 to 10 within half a minute of it, and a final
  -- warning carries exactly the seconds left, from 1 to 60.
  pub reconcile-IsHonest :
      (w : ExpiryWarnings) (session : Option SessionSnapshot) (now : DateTime) (d : DeadlineKey)
      → key_of session ≡ some d
      → All
          (IsHonest (num_seconds (sub_ℕ d.expires_at now)))
          (reconcile num_seconds w session now).1
  reconcile-IsHonest w session now d e =
      unfold reconcile in
      let r = num_seconds (sub_ℕ d.expires_at now) in
      let (w', es) = rekey w (key_of session) [] in
      let honest =
        rekey_cases (λ p. All (IsHonest r) p.1) w (key_of session) [] (λ _. tt)
          (λ _. dismiss_final-IsHonest r w [] tt) in
      rw ((rekey-Progress num_seconds w (key_of session)).0 ∙ e)
        (evaluate-IsHonest d w' es now honest)
