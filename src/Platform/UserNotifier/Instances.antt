-- ===== src/Platform/UserNotifier/Instances.antt =====
-- The notifiers of the three platforms as a `UserNotifier`, and their warnings threads.
use taymna.Common.{
  ◌≡◌, refl, Bool, true, false, Option, none, some, List, [], ◌∷◌, ◌++◌, ap, ◌∙◌, ℕ,
}
use mathlib.Core.List.{append_assoc}
use taymna.Common.Int.{ℤ}
use taymna.Warning
use taymna.Warning.{WarningEffect}
use taymna.Platform.{final_warning_headline}
use taymna.Platform.Linux.Notifier
use taymna.Platform.Linux.Notifier.{notify_send, final_options, final_body}
use taymna.Platform.Macos
use taymna.Platform.Macos.{spawn_osascript, final_script}
use taymna.Platform.Windows
use taymna.Platform.Windows.Scripts.{countdown}
use taymna.Platform.UserNotifier.{UserNotifier, apply, apply_all, deliver}

abbrev is_some : Option ℕ → Bool
is_some none = false
is_some (some _) = true

pub linux_dismissed : (s : Option ℕ) (os : Notifier.Os) → is_some (Notifier.dismiss s os).1 ≡ false
unfolding Notifier.dismiss
linux_dismissed none os = refl
linux_dismissed (some id) os = refl

pub linux_shown :
    (s : Option ℕ) (r : ℤ) (first second : Notifier.Os)
    → is_some (Notifier.show_final s r first second).1
      ≡ is_some (notify_send (final_options r) final_warning_headline (final_body r) second).1
unfolding Notifier.show_final
linux_shown s r first second = refl

abbrev pub linux : UserNotifier
linux = record {
  State = Option ℕ;
  Os = Notifier.Os × Notifier.Os;
  Call = Notifier.Run;
  notify = λ notice os. Notifier.notify_user notice os.0;
  show_final_warning = λ s r os. Notifier.show_final s r os.0 os.1;
  dismiss_final_warning = λ s os. Notifier.dismiss s os.0;
  is_up = is_some;
  can_show =
      λ r os. is_some (notify_send (final_options r) final_warning_headline (final_body r) os.1).1;
  dismissed = λ s os. linux_dismissed s os.0;
  shown = λ s r os. linux_shown s r os.0 os.1;
}

pub macos_dismissed : (s : Option ℕ) → is_some (Macos.dismiss s).1 ≡ false
unfolding Macos.dismiss
macos_dismissed none = refl
macos_dismissed (some child) = refl

pub macos_shown :
    (s : Option ℕ) (r : ℤ) (c : Macos.Console)
    → is_some (Macos.show_final s r c).1 ≡ is_some (spawn_osascript (final_script r) c).1
unfolding Macos.show_final
macos_shown s r c = refl

abbrev pub macos : UserNotifier
macos = record {
  State = Option ℕ;
  Os = Macos.Console;
  Call = Macos.Call;
  notify = Macos.notify_user;
  show_final_warning = Macos.show_final;
  dismiss_final_warning = λ s os. Macos.dismiss s;
  is_up = is_some;
  can_show = λ r c. is_some (spawn_osascript (final_script r) c).1;
  dismissed = λ s os. macos_dismissed s;
  shown = macos_shown;
}

pub windows_dismissed : (s : Option ℕ) → is_some (Windows.dismiss s).1 ≡ false
unfolding Windows.dismiss
windows_dismissed none = refl
windows_dismissed (some process) = refl

pub windows_shown :
    (s : Option ℕ) (r : ℤ) (os : Windows.Os)
    → is_some (Windows.show_final s r os).1
      ≡ is_some (Windows.held none (Windows.run_powershell (countdown r) os).1)
unfolding Windows.show_final Windows.dismiss
windows_shown none r os = refl
windows_shown (some process) r os = refl

abbrev pub windows : UserNotifier
windows = record {
  State = Option ℕ;
  Os = Windows.Os;
  Call = Windows.Call;
  notify = Windows.notify_user;
  show_final_warning = Windows.show_final;
  dismiss_final_warning = λ s os. Windows.dismiss s;
  is_up = is_some;
  can_show = λ r os. is_some (Windows.held none (Windows.run_powershell (countdown r) os).1);
  dismissed = λ s os. windows_dismissed s;
  shown = windows_shown;
}

-- Calls in front of what a notifier does later.
abbrev ahead_of {ℓ κ} : {A : Type ℓ} {B : Type κ} → List A → List A × B → List A × B
ahead_of calls (more, end) = (calls ++ more, end)

deliver-cons :
    (n : UserNotifier) (s : n.State) (effect : WarningEffect) (os : n.Os)
    (effects : List (WarningEffect × n.Os)) (last : n.Os)
    → deliver n s ((effect, os) ∷ effects) last
      ≡ ahead_of (apply n s effect os).0 (deliver n (apply n s effect os).1 effects last)
deliver-cons n s effect os effects last =
    let (calls, s') = apply n s effect os in
    let (more, s'') = apply_all n s' effects in
    let (closing, end) = n.dismiss_final_warning s'' last in
    ap (λ c. (c, end)) (append_assoc calls more closing)

-- The warnings thread of each platform is that of its notifier.
pub linux-deliver :
    (s : Option ℕ) (effects : List (WarningEffect × (Notifier.Os × Notifier.Os)))
    (last : Notifier.Os)
    → deliver linux s effects (last, last) ≡ Notifier.deliver s effects last
unfolding Notifier.deliver
linux-deliver s [] last = refl
linux-deliver s ((Warning.notify notice, os) ∷ effects) last =
    deliver-cons linux s (Warning.notify notice) os effects (last, last)
    ∙ ap (ahead_of (apply linux s (Warning.notify notice) os).0) (linux-deliver s effects last)
linux-deliver s ((Warning.show_final_warning r, os) ∷ effects) last =
    let (calls, s') = apply linux s (Warning.show_final_warning r) os in
    deliver-cons linux s (Warning.show_final_warning r) os effects (last, last)
    ∙ ap (ahead_of calls) (linux-deliver s' effects last)
linux-deliver s ((Warning.dismiss_final_warning, os) ∷ effects) last =
    let (calls, s') = apply linux s Warning.dismiss_final_warning os in
    deliver-cons linux s Warning.dismiss_final_warning os effects (last, last)
    ∙ ap (ahead_of calls) (linux-deliver s' effects last)

pub macos-deliver :
    (s : Option ℕ) (effects : List (WarningEffect × Macos.Console)) (last : Macos.Console)
    → deliver macos s effects last ≡ Macos.deliver s effects
unfolding Macos.deliver
macos-deliver s [] last = refl
macos-deliver s ((Warning.notify notice, os) ∷ effects) last =
    deliver-cons macos s (Warning.notify notice) os effects last
    ∙ ap (ahead_of (Macos.notify_user notice os)) (macos-deliver s effects last)
macos-deliver s ((Warning.show_final_warning r, os) ∷ effects) last =
    let (calls, s') = Macos.show_final s r os in
    deliver-cons macos s (Warning.show_final_warning r) os effects last
    ∙ ap (ahead_of calls) (macos-deliver s' effects last)
macos-deliver s ((Warning.dismiss_final_warning, os) ∷ effects) last =
    let (calls, s') = Macos.dismiss s in
    deliver-cons macos s Warning.dismiss_final_warning os effects last
    ∙ ap (ahead_of calls) (macos-deliver s' effects last)

pub windows-deliver :
    (s : Option ℕ) (effects : List (WarningEffect × Windows.Os)) (last : Windows.Os)
    → deliver windows s effects last ≡ Windows.deliver s effects
unfolding Windows.deliver
windows-deliver s [] last = refl
windows-deliver s ((Warning.notify notice, os) ∷ effects) last =
    deliver-cons windows s (Warning.notify notice) os effects last
    ∙ ap (ahead_of (Windows.notify_user notice os)) (windows-deliver s effects last)
windows-deliver s ((Warning.show_final_warning r, os) ∷ effects) last =
    let (calls, s') = Windows.show_final s r os in
    deliver-cons windows s (Warning.show_final_warning r) os effects last
    ∙ ap (ahead_of calls) (windows-deliver s' effects last)
windows-deliver s ((Warning.dismiss_final_warning, os) ∷ effects) last =
    let (calls, s') = Windows.dismiss s in
    deliver-cons windows s Warning.dismiss_final_warning os effects last
    ∙ ap (ahead_of calls) (windows-deliver s' effects last)
