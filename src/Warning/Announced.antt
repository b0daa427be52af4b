-- ===== src/Warning/Announced.antt =====
-- What a countdown has said by the time that it is over: the effects, not the state.
use mathlib.Core.List.{append-nil, append_assoc}
use taymna.Common.{
  ◌≤◌, ◌≡◌, refl, ◌⊎◌, inl, inr, Option, none, some, List, [], ◌∷◌, ◌++◌, arith, DateTime,
  Bool-cases, All-split,
}
use taymna.Common.Int.{ℤ, pos, sub_ℕ, ◌<ℤ◌}
use taymna.Session.{SessionSnapshot}
use taymna.Warning.Cases.{rekey_cases, evaluate_cases}
use taymna.Warning.Ladder.{level_rank}
use taymna.Warning.CountDown.{Tick, count_down, HasKey, reconcile-level_for}
use taymna.Warning.{
  Level, final, ten_minutes, five_minutes, one_minute, rank, WarningEffect, notify,
  show_final_warning, dismiss_final_warning, DeadlineKey, ExpiryWarnings, notice_for, level_for,
  key_of, already_fired, announce, dismiss_final, rekey, fire, evaluate, reconcile,
}

-- The final level is the window, every other level its notice, at some time left.
abbrev pub Announces : Level → WarningEffect → Type 0
Announces final (show_final_warning _) = Unit {0}
Announces final _ = ⊥
Announces level (notify n) = (r : ℤ) × (n ≡ notice_for level r)
Announces level _ = ⊥

abbrev pub Announced : Level → List WarningEffect → Type 0
Announced level [] = ⊥
Announced level (e ∷ es) = Announces level e ⊎ Announced level es

-- A level at least as urgent as one, or as none, was announced.
abbrev pub AnnouncedFrom : Option Level → List WarningEffect → Type 0
AnnouncedFrom none es = Unit {0}
AnnouncedFrom (some level) es = (l : Level) × (rank level ≤ rank l) × Announced l es

-- The high-water mark, if there is one, was announced.
abbrev Told : Option Level → List WarningEffect → Type 0
Told none es = Unit {0}
Told (some level) es = Announced level es

Announced-append :
    (level : Level) (es fs : List WarningEffect) → Announced level es → Announced level (es ++ fs)
Announced-append level [] fs h = absurd h
Announced-append level (e ∷ es) fs (inl h) = inl h
Announced-append level (e ∷ es) fs (inr h) = inr (Announced-append level es fs h)

Announced-last :
    (level : Level) (es : List WarningEffect) (e : WarningEffect)
    → Announces level e
    → Announced level (es ++ e ∷ [])
Announced-last level [] e h = inl h
Announced-last level (f ∷ es) e h = inr (Announced-last level es e h)

Told-append :
    (fired : Option Level) (es fs : List WarningEffect) → Told fired es → Told fired (es ++ fs)
Told-append none es fs h = tt
Told-append (some level) es fs h = Announced-append level es fs h

-- `before` are the effects of earlier ticks, and `es` those of this one so far.
abbrev Tells : List WarningEffect → ExpiryWarnings × List WarningEffect → Type 0
Tells before (w, es) = Told w.fired (before ++ es)

-- What is due is announced as itself.
announce-Tells :
    (before : List WarningEffect) (w : ExpiryWarnings) (es : List WarningEffect) (level : Level)
    (r : ℤ)
    → Tells before (announce (record w { fired = some level }) es level r)
unfolding announce
announce-Tells before w es final r =
    rw (← append_assoc before es (show_final_warning r ∷ []))
      (Announced-last final (before ++ es) (show_final_warning r) tt)
announce-Tells before w es level r =
    rw (← append_assoc before es (notify (notice_for level r) ∷ []))
      (Announced-last level (before ++ es) (notify (notice_for level r)) (r, refl))

fire-Tells :
    (before : List WarningEffect) (w : ExpiryWarnings) (es : List WarningEffect) (level : Level)
    (r : ℤ)
    → Tells before (w, es)
    → Tells before (fire w es level r)
unfolding fire
fire-Tells before w es level r h = elim (Bool-cases (already_fired w.fired level)) [
  | inl e ↦ rw e h
  | inr e ↦ rw e (announce-Tells before w es level r)
]

dismiss_final-Tells :
    (before : List WarningEffect) (w : ExpiryWarnings) (es : List WarningEffect)
    → Tells before (w, es)
    → Tells before (dismiss_final w es)
unfolding dismiss_final
dismiss_final-Tells before w es h = elim (Bool-cases w.final_visible) [
  | inl e ↦
      rw (e, ← append_assoc before es (dismiss_final_warning ∷ []))
        (Told-append w.fired (before ++ es) (dismiss_final_warning ∷ []) h)
  | inr e ↦ rw e h
]

rekey-Tells :
    (before : List WarningEffect) (w : ExpiryWarnings) (key : Option DeadlineKey)
    → Told w.fired before
    → Tells before (rekey w key [])
rekey-Tells before w key h =
    rekey_cases (Tells before) w key [] (λ _. rw (append-nil before) h) (λ _. tt)

ranked : (level : Level) → 1 ≤ rank level
ranked ten_minutes = omega arith
ranked five_minutes = omega arith
ranked one_minute = omega arith
ranked final = omega arith

reached :
    (level fired : Option Level) (es : List WarningEffect)
    → level_rank level ≤ level_rank fired
    → Told fired es
    → AnnouncedFrom level es
reached none fired es le h = tt
reached (some level) none es le h = absurd (omega (arith, ranked level))
reached (some level) (some l) es le h = (l, le, h)

module _ (num_seconds : ℤ → ℤ) where
  evaluate-Tells :
      (before : List WarningEffect) (key : Option DeadlineKey) (w : ExpiryWarnings)
      (es : List WarningEffect) (now : DateTime)
      → Tells before (w, es)
      → Tells before (evaluate num_seconds key w es now)
  evaluate-Tells before none w es now h = unfold evaluate in h
  evaluate-Tells before (some deadline) w es now h =
      let seen : ExpiryWarnings = record w { last_seen = some now } in
      evaluate_cases num_seconds (Tells before) deadline w es now
        (λ _. dismiss_final-Tells before seen es (h)) (λ _ _. h)
        (λ level _ _. fire-Tells before seen es level _ (h))

  reconcile-Tells :
      (before : List WarningEffect) (w : ExpiryWarnings) (session : Option SessionSnapshot)
      (now : DateTime)
      → Told w.fired before
      → Tells before (reconcile num_seconds w session now)
  unfolding reconcile
  reconcile-Tells before w session now h =
      let (w', es) = rekey w (key_of session) [] in
      evaluate-Tells before w'.key w' es now (rekey-Tells before w (key_of session) h)

  count_down-Tells :
      (before : List WarningEffect) (w : ExpiryWarnings) (ticks : List Tick)
      → Told w.fired before
      → Tells before (count_down num_seconds w ticks)
  unfolding count_down
  count_down-Tells before w [] h = rw (append-nil before) h
  count_down-Tells before w ((session, now) ∷ ticks) h =
      let (w', es) = reconcile num_seconds w session now in
      let first = reconcile-Tells before w session now h in
      let fs = (count_down num_seconds w' ticks).1 in
      rw (← append_assoc before es fs) (count_down-Tells (before ++ es) w' ticks first)

  count_down-snoc :
      (w : ExpiryWarnings) (ticks : List Tick) (session : Option SessionSnapshot) (now : DateTime)
      → (count_down num_seconds w (ticks ++ (session, now) ∷ [])).0
        ≡ (reconcile num_seconds (count_down num_seconds w ticks).0 session now).0
  unfolding count_down
  count_down-snoc w [] session now = refl
  count_down-snoc w ((s, t) ∷ ticks) session now =
      count_down-snoc (reconcile num_seconds w s t).0 ticks session now

  -- No threshold is missed: of the ticks of one deadline, from a state that has announced nothing,
  -- if the last one comes with time left, then by its end a notice or the final window for a level
  -- at least as urgent as the one that belongs to the time left has been among the effects,
  -- however many the ticks are, however late they come and whatever they skip.
  pub count_down-announces :
      (w : ExpiryWarnings) (ticks : List Tick) (session : Option SessionSnapshot) (now : DateTime)
      (d : DeadlineKey)
      → w.fired ≡ none
      → HasKey num_seconds (some d) (ticks ++ (session, now) ∷ [])
      → let r = num_seconds (sub_ℕ d.expires_at now) in
        pos 0 <ℤ r
        → AnnouncedFrom (level_for r) (count_down num_seconds w (ticks ++ (session, now) ∷ [])).1
  count_down-announces w ticks session now d fresh known left =
      let last = (session, now) ∷ [] in
      let e = (All-split (λ tick. key_of tick.0 ≡ some d) ticks last known).1.0 in
      reached _ _ _
        (rw (count_down-snoc w ticks session now)
          (reconcile-level_for num_seconds (count_down num_seconds w ticks).0 session now d e left))
        (count_down-Tells [] w (ticks ++ last) (rw fresh tt))
