-- ===== src/Warning/CountDown.antt =====
-- What the ticks of a whole countdown announce.
use taymna.Common.{
  ◌+◌, ◌≤◌, ◌≡◌, Option, none, some, List, [], ◌∷◌, ◌++◌, arith, DateTime, All, sym, ◌∙◌,
}
use taymna.Common.Int.{ℤ, pos, sub_ℕ, ◌<ℤ◌}
use taymna.Session.{SessionSnapshot}
use taymna.Warning.Cases.{evaluate_cases}
use taymna.Warning.Ladder.{
  level_rank, shown, finals, final_fired, shown-append, finals-append, reconcile-Progress,
  reconcile_first, rekey-Progress,
}
use taymna.Warning.{
  Level, final, ten_minutes, rank, WarningEffect, DeadlineKey, ExpiryWarnings, level_for,
  arriving_late_level, due, key_of, rekey, fire, reconcile,
}

-- A tick: the session as enforcement left it, and the trusted time.
abbrev pub Tick : Type 0
Tick = Option SessionSnapshot × DateTime

module _ (num_seconds : ℤ → ℤ) where
  -- The effects of consecutive ticks.
  unfoldable pub count_down : ExpiryWarnings → List Tick → ExpiryWarnings × List WarningEffect
  count_down w [] = (w, [])
  count_down w ((session, now) ∷ ticks) =
      let (w', es) = reconcile num_seconds w session now in
      let (w'', fs) = count_down w' ticks in (w'', es ++ fs)

  abbrev pub HasKey : Option DeadlineKey → List Tick → Type 0
  HasKey key = All λ tick. key_of tick.0 ≡ key

  count_down_known :
      (key : Option DeadlineKey) (w : ExpiryWarnings) (ticks : List Tick)
      → w.key ≡ key
      → HasKey key ticks
      → let (w', es) = count_down w ticks in
        (shown es + level_rank w.fired ≤ level_rank w'.fired)
        × (finals es + final_fired w.fired ≤ final_fired w'.fired)
  unfolding count_down
  count_down_known key w [] k h = ground arith
  count_down_known key w ((session, now) ∷ ticks) k (e, h) =
      let p = reconcile-Progress num_seconds w session now (e ∙ sym k) in
      let (w', es) = reconcile num_seconds w session now in
      let fs = (count_down w' ticks).1 in
      let later = count_down_known key w' ticks (p.same_key ∙ k) h in
      omega (arith, p, later, shown-append es fs, finals-append es fs)

  level_rank_bound : (level : Option Level) → (level_rank level ≤ 4) × (final_fired level ≤ 1)
  level_rank_bound none = omega arith
  level_rank_bound (some final) = omega arith
  level_rank_bound (some ten_minutes) = omega arith
  level_rank_bound (some level) = omega arith

  -- However many ticks a deadline lives through, from whatever state and at whatever times, at
  -- most four warnings are announced for it, and at most one of them is the final warning.
  pub count_down_bounded :
      (key : Option DeadlineKey) (w : ExpiryWarnings) (ticks : List Tick)
      → HasKey key ticks
      → let es = (count_down w ticks).1 in (shown es ≤ 4) × (finals es ≤ 1)
  unfolding count_down
  count_down_bounded key w [] h = omega arith
  count_down_bounded key w ((session, now) ∷ ticks) (e, h) =
      let (w', es) = reconcile num_seconds w session now in
      let first = reconcile_first num_seconds w session now in
      let (w'', fs) = count_down w' ticks in
      omega (
        arith,
        first,
        count_down_known key w' ticks (first.0 ∙ e) h,
        level_rank_bound w''.fired,
        shown-append es fs,
        finals-append es fs,
      )

  level_for-le-due :
      (previous : Option DateTime) (now : DateTime) (r : ℤ)
      → level_rank (level_for r) ≤ level_rank (due num_seconds previous now r)
  unfolding level_for arriving_late_level
  level_for-le-due previous now r = ground arith

  fire_reaches :
      (w : ExpiryWarnings) (es : List WarningEffect) (level : Level) (r : ℤ)
      → rank level ≤ level_rank (fire w es level r).0.fired
  unfolding fire
  fire_reaches w es final r = ground arith
  fire_reaches w es level r = ground arith

  -- Once a tick of an active session with time left is over, the mark of what has fired is a level
  -- at least as urgent as the one that belongs to the time left.
  pub reconcile-level_for :
      (w : ExpiryWarnings) (session : Option SessionSnapshot) (now : DateTime) (d : DeadlineKey)
      → key_of session ≡ some d
      → let r = num_seconds (sub_ℕ d.expires_at now) in
        pos 0 <ℤ r
        → level_rank (level_for r) ≤ level_rank (reconcile num_seconds w session now).0.fired
  reconcile-level_for w session now d e left =
      unfold reconcile in
      let r = num_seconds (sub_ℕ d.expires_at now) in
      let (w', es) = rekey w (key_of session) [] in
      let seen : ExpiryWarnings = record w' { last_seen = some now } in
      rw ((rekey-Progress num_seconds w (key_of session)).0 ∙ e) (
        evaluate_cases num_seconds (λ p. level_rank (level_for r) ≤ level_rank p.0.fired) d w' es
          now (λ h. absurd (omega arith))
          (λ _ q. ground (arith, level_for-le-due w'.last_seen now r))
          (λ level _ q.
            ground (arith, level_for-le-due w'.last_seen now r, fire_reaches seen es level r)))
