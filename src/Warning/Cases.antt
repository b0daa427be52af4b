-- ===== src/Warning/Cases.antt =====
-- The ways through `reconcile`, for the proofs about it.
use taymna.Common.{
  ◌≡◌, inl, inr, Option, none, some, List, arith, DateTime, Bool-cases, Option-cases,
}
use taymna.Common.Equality.{==_iff, option_eq, ◌==◌}
use taymna.Common.Int.{ℤ, pos, sub_ℕ, ◌≤ℤ◌, ◌<ℤ◌, leb_ℤ}
use taymna.Warning.{
  Level, WarningEffect, DeadlineKey, key_eq, ExpiryWarnings, due, dismiss_final, rekey, fire,
  evaluate,
}

-- A new deadline resets the state and dismisses a final warning; a known one changes nothing.
pub rekey_cases {ℓ} :
    (P : ExpiryWarnings × List WarningEffect → Type ℓ) (w : ExpiryWarnings)
    (key : Option DeadlineKey) (es : List WarningEffect)
    → (key ≡ w.key → P (w, es))
    → (¬ (key ≡ w.key)
        → let (w', es') = dismiss_final w es in
          P (record w' { key = key; fired = none; last_seen = none }, es'))
    → P (rekey w key es)
unfolding rekey
rekey_cases P w key es same other = elim (Bool-cases (key == w.key)) [
  | inl e ↦ rw e (same ((==_iff key w.key).0 e))
  | inr e ↦ rw e (other (λ k. cc ((==_iff key w.key).1 k)))
]

module _ (num_seconds : ℤ → ℤ) where
  -- Past the deadline, before any threshold, and at a level that is due.
  pub evaluate_cases {ℓ} :
      (P : ExpiryWarnings × List WarningEffect → Type ℓ) (deadline : DeadlineKey)
      (w : ExpiryWarnings) (es : List WarningEffect) (now : DateTime)
      → let r = num_seconds (sub_ℕ deadline.expires_at now) in
        let seen : ExpiryWarnings = record w { last_seen = some now } in
        (r ≤ℤ pos 0 → P (dismiss_final seen es))
        → (pos 0 <ℤ r → due num_seconds w.last_seen now r ≡ none → P (seen, es))
        → ((level : Level)
            → pos 0 <ℤ r
            → due num_seconds w.last_seen now r ≡ some level
            → P (fire seen es level r))
        → P (evaluate num_seconds (some deadline) w es now)
  unfolding evaluate
  evaluate_cases P deadline w es now past quiet at =
      let r = num_seconds (sub_ℕ deadline.expires_at now) in
      elim (Bool-cases (leb_ℤ r (pos 0))) [
        | inl e ↦ rw e (past (ground arith))
        | inr e ↦ elim (Option-cases (due num_seconds w.last_seen now r)) [
          | inl n ↦ rw (e, n) (quiet (ground arith) n)
          | inr (level, l) ↦ rw (e, l) (at level (ground arith) l)
        ]
      ]
