-- ===== src/Warning/Screen.antt =====
-- The final warning on the user's screen, and what `final_visible` believes of it.
use taymna.Common.{
  ◌≡◌, refl, ◌∙◌, Bool, true, false, Option, none, some, List, [], ◌∷◌, ◌++◌, arith, DateTime,
  if◌then◌else◌,
}
use taymna.Common.Int.{ℤ, sub_ℕ}
use taymna.Session.{SessionSnapshot, blocked, advance}
use taymna.Warning.Cases.{rekey_cases, evaluate_cases}
use taymna.Warning.CountDown.{Tick, count_down}
use taymna.Warning.{
  Level, final, WarningEffect, notify, show_final_warning, dismiss_final_warning, notice_for,
  DeadlineKey, ExpiryWarnings, new, key_of, dismiss_final, rekey, fire, evaluate, reconcile,
}

-- Whether a final warning is up, after some effects are delivered.
abbrev pub screen : Bool → List WarningEffect → Bool
screen up [] = up
screen up (notify _ ∷ es) = screen up es
screen up (show_final_warning _ ∷ es) = screen true es
screen up (dismiss_final_warning ∷ es) = screen false es

-- A final warning is put up only where none is, and is taken down only where one is.
abbrev pub Alternates : Bool → List WarningEffect → Type 0
Alternates up [] = Unit {0}
Alternates up (notify _ ∷ es) = Alternates up es
Alternates up (show_final_warning _ ∷ es) = (up ≡ false) × Alternates true es
Alternates up (dismiss_final_warning ∷ es) = (up ≡ true) × Alternates false es

screen-append :
    (up : Bool) (es fs : List WarningEffect) → screen up (es ++ fs) ≡ screen (screen up es) fs
screen-append up [] fs = refl
screen-append up (notify _ ∷ es) fs = screen-append up es fs
screen-append up (show_final_warning _ ∷ es) fs = screen-append true es fs
screen-append up (dismiss_final_warning ∷ es) fs = screen-append false es fs

Alternates-append :
    (up : Bool) (es fs : List WarningEffect)
    → Alternates up es
    → Alternates (screen up es) fs
    → Alternates up (es ++ fs)
Alternates-append up [] fs h k = k
Alternates-append up (notify _ ∷ es) fs h k = Alternates-append up es fs h k
Alternates-append up (show_final_warning _ ∷ es) fs (e, h) k = (e, Alternates-append true es fs h k)
Alternates-append up (dismiss_final_warning ∷ es) fs (e, h) k =
    (e, Alternates-append false es fs h k)

-- A visible final warning has been fired, for a deadline that is still there.
pub record IsConsistent (w : ExpiryWarnings) : Type 0 where
  pub visible_fired : w.final_visible ≡ true → w.fired ≡ some final
  pub no_key : w.key ≡ none → w.final_visible ≡ false

-- The effects so far have driven the screen from `up` to what `w` believes of it.
record Drives (up : Bool) (p : ExpiryWarnings × List WarningEffect) : Type 0 where
  alternates : Alternates up p.1
  tracked : screen up p.1 ≡ p.0.final_visible

dismiss_final-Drives :
    (up : Bool) (w : ExpiryWarnings) (es : List WarningEffect)
    → Drives up (w, es)
    → let p = dismiss_final w es in Drives up p × (p.0.final_visible ≡ false) × (p.0.key ≡ w.key)
unfolding dismiss_final
dismiss_final-Drives up w es d =
    let e = dismiss_final_warning ∷ [] in
    ground (arith, Alternates-append up es e d.alternates, screen-append up es e)

fire-Drives :
    (up : Bool) (w : ExpiryWarnings) (es : List WarningEffect) (level : Level) (r : ℤ)
    (key : DeadlineKey)
    → w.key ≡ some key
    → IsConsistent w
    → Drives up (w, es)
    → Drives up (fire w es level r) × IsConsistent (fire w es level r).0
unfolding fire
fire-Drives up w es final r key k c d =
    let e = show_final_warning r ∷ [] in
    ground (arith, Alternates-append up es e d.alternates, screen-append up es e)
fire-Drives up w es level r key k c d =
    let e = notify (notice_for level r) ∷ [] in
    ground (arith, Alternates-append up es e d.alternates, screen-append up es e)

module _ (num_seconds : ℤ → ℤ) where
  rekey-Drives :
      (w : ExpiryWarnings) (key : Option DeadlineKey)
      → IsConsistent w
      → let p = rekey w key [] in Drives w.final_visible p × IsConsistent p.0 × (p.0.key ≡ key)
  rekey-Drives w key c =
      rekey_cases (λ p. Drives w.final_visible p × IsConsistent p.0 × (p.0.key ≡ key)) w key []
        (λ e. ground arith)
        (λ _. ground (
          arith,
          dismiss_final-Drives w.final_visible w [] (record { alternates = tt; tracked = refl }),
        ))

  evaluate-Drives :
      (up : Bool) (key : Option DeadlineKey) (w : ExpiryWarnings) (es : List WarningEffect)
      (now : DateTime)
      → w.key ≡ key
      → IsConsistent w
      → Drives up (w, es)
      → Drives up (evaluate num_seconds key w es now)
        × IsConsistent (evaluate num_seconds key w es now).0
  evaluate-Drives up none w es now k c d = unfold evaluate in (d, c)
  evaluate-Drives up (some key) w es now k c d =
      let r = num_seconds (sub_ℕ key.expires_at now) in
      let seen : ExpiryWarnings = record w { last_seen = some now } in
      evaluate_cases num_seconds (λ p. Drives up p × IsConsistent p.0) key w es now
        (λ _. ground (arith, dismiss_final-Drives up seen es)) (λ _ _. ground arith)
        (λ level _ _. fire-Drives up seen es level r key k (ground arith) (ground arith))

  -- A tick puts the final warning up only where none is up and takes it down only where one is,
  -- `final_visible` says afterwards whether one is up, and the state stays consistent.
  pub reconcile-Alternates :
      (w : ExpiryWarnings) (session : Option SessionSnapshot) (now : DateTime)
      → IsConsistent w
      → let (w', es) = reconcile num_seconds w session now in
        Alternates w.final_visible es
        × (screen w.final_visible es ≡ w'.final_visible)
        × IsConsistent w'
  reconcile-Alternates w session now c =
      unfold reconcile in
      let (w', es) = rekey w (key_of session) [] in
      let (d, c', k) = rekey-Drives w (key_of session) c in
      let (d', c'') = evaluate-Drives w.final_visible w'.key w' es now refl c' d in
      (d'.alternates, d'.tracked, c'')

  count_down-Drives :
      (w : ExpiryWarnings) (ticks : List Tick)
      → IsConsistent w
      → let (w', es) = count_down num_seconds w ticks in
        Alternates w.final_visible es × (screen w.final_visible es ≡ w'.final_visible)
  unfolding count_down
  count_down-Drives w [] c = (tt, refl)
  count_down-Drives w ((session, now) ∷ ticks) c =
      let (w', es) = reconcile num_seconds w session now in
      let (a, t, c') = reconcile-Alternates w session now c in
      let (w'', fs) = count_down num_seconds w' ticks in
      let (b, u) = count_down-Drives w' ticks c' in
      (
        Alternates-append w.final_visible es fs a (rw t b),
        screen-append w.final_visible es fs ∙ (rw t u),
      )

  new-IsConsistent : IsConsistent new
  unfolding new
  new-IsConsistent = ground arith

  -- From the start of the agent, over any ticks with any sessions at any times, the final warning
  -- is put up only while none is up and taken down only while one is, and `final_visible` always
  -- says whether one is up.
  pub count_down-Alternates :
      (ticks : List Tick)
      → let (w, es) = count_down num_seconds new ticks in
        Alternates false es × (screen false es ≡ w.final_visible)
  unfolding new
  count_down-Alternates ticks = count_down-Drives new ticks new-IsConsistent

  key_of-advance :
      (session : Option SessionSnapshot) (now : DateTime)
      → (advance session now).1 ≡ blocked
      → key_of (advance session now).0 ≡ none
  unfolding advance
  key_of-advance none now h = refl
  key_of-advance (some s) now h = ground arith

  rekey-none :
      (w : ExpiryWarnings)
      → IsConsistent w
      → let (w', es) = rekey w none [] in
        (es ≡ (if w.final_visible then dismiss_final_warning ∷ [] else []))
        × (w'.key ≡ none)
        × (w'.final_visible ≡ false)
  rekey-none w c =
      rekey_cases
        (λ p.
          (p.1 ≡ (if w.final_visible then dismiss_final_warning ∷ [] else []))
          × (p.0.key ≡ none)
          × (p.0.final_visible ≡ false))
        w none [] (λ e. ground arith) (λ _. unfold dismiss_final in ground arith)

  -- On a tick that blocks the machine nothing is announced: from a state in which a visible final
  -- warning was fired for a deadline that is still there, the only effect is the dismissal of a
  -- final warning that is up, and afterwards none is.
  pub reconcile-advance_blocked :
      (w : ExpiryWarnings) (session : Option SessionSnapshot) (now : DateTime)
      → IsConsistent w
      → (advance session now).1 ≡ blocked
      → let (w', es) = reconcile num_seconds w (advance session now).0 now in
        (es ≡ (if w.final_visible then dismiss_final_warning ∷ [] else []))
        × (w'.key ≡ none)
        × (w'.final_visible ≡ false)
  reconcile-advance_blocked w session now c h =
      unfold reconcile in
      let (e, k, v) = rekey-none w c in rw (key_of-advance session now h, k, evaluate) (e, k, v)
