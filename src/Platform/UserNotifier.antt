-- ===== src/Platform/UserNotifier.antt =====
-- agent/src/platform/mod.rs, `UserNotifier`: what the warnings thread of agent/src/main.rs and `apply`
-- of agent/src/warning.rs ask of a platform, and what they may count on.
pub mod Instances
pub mod Screen
use taymna.Common.{◌≡◌, Bool, true, false, List, [], ◌∷◌, ◌++◌}
use taymna.Common.Int.{ℤ}
use taymna.Warning
use taymna.Warning.{Notice, WarningEffect}

-- `State` is what the notifier keeps of a final warning, `Os` what the system answers to one effect,
-- and `Call` what it is asked. `is_up` says whether a final warning is kept, and `can_show` whether
-- the system puts one up.
pub record UserNotifier : Type 1 where
  pub State : Type 0
  pub Os : Type 0
  pub Call : Type 0
  pub notify : Notice → Os → List Call
  pub show_final_warning : State → ℤ → Os → List Call × State
  pub dismiss_final_warning : State → Os → List Call × State
  pub is_up : State → Bool
  pub can_show : ℤ → Os → Bool
  pub dismissed : (s : State) (os : Os) → is_up (dismiss_final_warning s os).1 ≡ false
  pub shown : (s : State) (r : ℤ) (os : Os) → is_up (show_final_warning s r os).1 ≡ can_show r os

module _ (n : UserNotifier) where
  open n use {State, Os, Call}

  abbrev pub apply : State → WarningEffect → Os → List Call × State
  apply s (Warning.notify notice) os = (n.notify notice os, s)
  apply s (Warning.show_final_warning remaining) os = n.show_final_warning s remaining os
  apply s Warning.dismiss_final_warning os = n.dismiss_final_warning s os

  -- The loop of the thread, and what follows when the channel has ended.
  abbrev pub apply_all : State → List (WarningEffect × Os) → List Call × State
  apply_all s [] = ([], s)
  apply_all s ((effect, os) ∷ effects) =
      let (calls, s') = apply s effect os in
      let (more, end) = apply_all s' effects in (calls ++ more, end)

  abbrev pub deliver : State → List (WarningEffect × Os) → Os → List Call × State
  deliver s effects last =
      let (calls, s') = apply_all s effects in
      let (more, end) = n.dismiss_final_warning s' last in (calls ++ more, end)
