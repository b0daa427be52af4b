-- ===== src/Warning/Ladder.antt =====
-- The levels, and the high-water mark `fired`.
use taymna.Common.{
  ℕ, suc, ◌+◌, ◌≤◌, ◌≡◌, refl, Option, none, some, List, [], ◌∷◌, ◌++◌, arith, DateTime, sym,
}
use taymna.Common.Int.{ℤ, sub_ℕ}
use taymna.Session.{SessionSnapshot}
use taymna.Warning.Cases.{rekey_cases, evaluate_cases}
use taymna.Warning.{
  Level, final, rank, WarningEffect, notify, show_final_warning, dismiss_final_warning, DeadlineKey,
  ExpiryWarnings, notice_for, key_of, dismiss_final, rekey, fire, evaluate, reconcile,
}

-- How urgent the most urgent level is, 0 for none.
abbrev pub level_rank : Option Level → ℕ
level_rank none = 0
level_rank (some level) = rank level

-- The warnings that are put on the screen, and the final ones among them.
abbrev pub shown : List WarningEffect → ℕ
shown [] = 0
shown (dismiss_final_warning ∷ es) = shown es
shown (_ ∷ es) = suc (shown es)

abbrev pub finals : List WarningEffect → ℕ
finals [] = 0
finals (show_final_warning _ ∷ es) = suc (finals es)
finals (_ ∷ es) = finals es

pub shown-append : (es fs : List WarningEffect) → shown (es ++ fs) ≡ shown es + shown fs
shown-append [] fs = omega arith
shown-append (dismiss_final_warning ∷ es) fs = shown-append es fs
shown-append (notify n ∷ es) fs = omega (arith, shown-append es fs)
shown-append (show_final_warning r ∷ es) fs = omega (arith, shown-append es fs)

pub finals-append : (es fs : List WarningEffect) → finals (es ++ fs) ≡ finals es + finals fs
finals-append [] fs = omega arith
finals-append (dismiss_final_warning ∷ es) fs = finals-append es fs
finals-append (notify n ∷ es) fs = finals-append es fs
finals-append (show_final_warning r ∷ es) fs = omega (arith, finals-append es fs)

abbrev pub final_fired : Option Level → ℕ
final_fired (some final) = 1
final_fired _ = 0

-- What one announcement, or none, does: each one raises `fired`, and each final one sets it.
pub record Progress (w w' : ExpiryWarnings) (es es' : List WarningEffect) : Type 0 where
  pub same_key : w'.key ≡ w.key
  pub raised : shown es' + level_rank w.fired ≤ shown es + level_rank w'.fired
  pub final_once : finals es' + final_fired w.fired ≤ finals es + final_fired w'.fired

fire-Progress :
    (w : ExpiryWarnings) (es : List WarningEffect) (level : Level) (r : ℤ)
    → Progress w (fire w es level r).0 es (fire w es level r).1
unfolding fire
fire-Progress w es final r =
    let e = show_final_warning r ∷ [] in ground (arith, shown-append es e, finals-append es e)
fire-Progress w es level r =
    let e = notify (notice_for level r) ∷ [] in
    ground (arith, shown-append es e, finals-append es e)

dismiss_final-Progress :
    (w : ExpiryWarnings) (es : List WarningEffect)
    → let (w', es') = dismiss_final w es in
      (w'.key ≡ w.key)
      × (w'.fired ≡ w.fired)
      × (w'.last_seen ≡ w.last_seen)
      × (shown es' ≡ shown es)
      × (finals es' ≡ finals es)
unfolding dismiss_final
dismiss_final-Progress w es =
    let e = dismiss_final_warning ∷ [] in ground (arith, shown-append es e, finals-append es e)

module _ (num_seconds : ℤ → ℤ) where
  evaluate-Progress :
      (key : Option DeadlineKey) (w : ExpiryWarnings) (es : List WarningEffect) (now : DateTime)
      → let (w', es') = evaluate num_seconds key w es now in Progress w w' es es'
  evaluate-Progress none w es now = unfold evaluate in ground arith
  evaluate-Progress (some deadline) w es now =
      let r = num_seconds (sub_ℕ deadline.expires_at now) in
      let seen : ExpiryWarnings = record w { last_seen = some now } in
      evaluate_cases num_seconds (λ p. Progress w p.0 es p.1) deadline w es now
        (λ _. ground (arith, dismiss_final-Progress seen es)) (λ _ _. ground arith)
        (λ level _ _. ground (arith, fire-Progress seen es level r))

  pub rekey-Progress :
      (w : ExpiryWarnings) (key : Option DeadlineKey)
      → let (w', es) = rekey w key [] in
        (w'.key ≡ key) × (shown es ≡ 0) × (finals es ≡ 0) × (key ≡ w.key → (w'.fired ≡ w.fired))
  rekey-Progress w key =
      rekey_cases
        (λ p.
          (p.0.key ≡ key)
          × (shown p.1 ≡ 0)
          × (finals p.1 ≡ 0)
          × (key ≡ w.key → (p.0.fired ≡ w.fired)))
        w key [] (λ e. (sym e, refl, refl, λ _. refl))
        (λ n. let d = dismiss_final-Progress w [] in (refl, d.3, d.4, λ e. absurd (n e)))

  -- One tick of a countdown whose deadline was known already raises `fired` by what it announces.
  pub reconcile-Progress :
      (w : ExpiryWarnings) (session : Option SessionSnapshot) (now : DateTime)
      → key_of session ≡ w.key
      → let (w', es) = reconcile num_seconds w session now in Progress w w' [] es
  reconcile-Progress w session now e =
      unfold reconcile in
      let (w', es) = rekey w (key_of session) [] in
      let (k, s, f, same) = rekey-Progress w (key_of session) in
      ground (arith, evaluate-Progress w'.key w' es now, same e)

  -- The first tick of a deadline too announces no more than `fired` then says.
  pub reconcile_first :
      (w : ExpiryWarnings) (session : Option SessionSnapshot) (now : DateTime)
      → let (w', es) = reconcile num_seconds w session now in
        (w'.key ≡ key_of session)
        × (shown es ≤ level_rank w'.fired)
        × (finals es ≤ final_fired w'.fired)
  reconcile_first w session now =
      unfold reconcile in
      let (w', es) = rekey w (key_of session) [] in
      let (k, s, f, same) = rekey-Progress w (key_of session) in
      ground (arith, evaluate-Progress w'.key w' es now)
