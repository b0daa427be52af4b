-- ===== src/Platform/UserNotifier/Screen.antt =====
-- The warnings that are decided on, and the one that a notifier keeps on the screen.
use taymna.Common.{◌≡◌, refl, true, false, List, [], ◌∷◌, All, ◌∙◌, ap}
use taymna.Common.Int.{ℤ}
use taymna.Warning
use taymna.Warning.{WarningEffect, new}
use taymna.Warning.CountDown.{Tick, count_down}
use taymna.Warning.Screen.{screen, count_down-Alternates}
use taymna.Platform.UserNotifier.{UserNotifier, apply_all, deliver}

module _ (n : UserNotifier) where
  open n use {State, Os, is_up}

  -- A final warning that is to be shown can be.
  abbrev pub IsShowable : WarningEffect × Os → Type 0
  IsShowable (Warning.show_final_warning r, os) = n.can_show r os ≡ true
  IsShowable _ = Unit {0}

  abbrev pub effects_of : List (WarningEffect × Os) → List WarningEffect
  effects_of [] = []
  effects_of ((effect, os) ∷ effects) = effect ∷ effects_of effects

  apply_all-screen :
      (s : State) (effects : List (WarningEffect × Os))
      → All IsShowable effects
      → is_up (apply_all n s effects).1 ≡ screen (is_up s) (effects_of effects)
  apply_all-screen s [] h = refl
  apply_all-screen s ((Warning.notify notice, os) ∷ effects) (p, h) = apply_all-screen s effects h
  apply_all-screen s ((Warning.show_final_warning r, os) ∷ effects) (p, h) =
      let s' = (n.show_final_warning s r os).1 in
      apply_all-screen s' effects h ∙ ap (λ up. screen up (effects_of effects)) (n.shown s r os ∙ p)
  apply_all-screen s ((Warning.dismiss_final_warning, os) ∷ effects) (p, h) =
      let s' = (n.dismiss_final_warning s os).1 in
      apply_all-screen s' effects h ∙ ap (λ up. screen up (effects_of effects)) (n.dismissed s os)

  -- For every platform: if from the start of the agent the effects of any ticks are delivered, to a
  -- notifier that keeps no final warning, and each final warning can be put up when it is due, then
  -- the notifier keeps one exactly while `final_visible` says that one is up, and when the channel
  -- has ended it keeps none.
  pub deliver-screen :
      (num_seconds : ℤ → ℤ) (ticks : List Tick) (s : State) (effects : List (WarningEffect × Os))
      (last : Os)
      → is_up s ≡ false
      → effects_of effects ≡ (count_down num_seconds new ticks).1
      → All IsShowable effects
      → (is_up (apply_all n s effects).1 ≡ (count_down num_seconds new ticks).0.final_visible)
        × (is_up (deliver n s effects last).1 ≡ false)
  deliver-screen num_seconds ticks s effects last down same h =
      let (alternates, tracked) = count_down-Alternates num_seconds ticks in
      (
        apply_all-screen s effects h
            ∙ ap (λ up. screen up (effects_of effects)) down
            ∙ ap (screen false) same
            ∙ tracked,
        n.dismissed (apply_all n s effects).1 last,
      )
