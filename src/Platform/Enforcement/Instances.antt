-- ===== src/Platform/Enforcement/Instances.antt =====
-- agent/src/platform/linux.rs, `LinuxEnforcement`, agent/src/platform/macos.rs, `MacosEnforcement`, and
-- agent/src/platform/windows.rs, `WindowsEnforcement`.
use taymna.Common.{refl, List, [], ◌∷◌}
use taymna.Common.Text.{Str, codes}
use taymna.Platform.Windows
use taymna.Platform.Enforcement.{Enforcement}

-- A program that is run and waited for; how it ends is only logged.
pub record Ran : Type 0 where
  pub program : Str
  pub args : List Str

abbrev pub lock_sessions : Ran
lock_sessions = record { program = codes "loginctl"; args = codes "lock-sessions" ∷ [] }

abbrev lock_script : Str
lock_script =
    codes "tell application \"System Events\" to keystroke \"q\" using {control down, command down}"

abbrev pub lock_screen : Ran
lock_screen = record { program = codes "osascript"; args = codes "-e" ∷ lock_script ∷ [] }

abbrev running_only : Ran → Enforcement
running_only ran = record {
  Os = Unit {0};
  Call = Ran;
  disable_usage = λ os. ran ∷ [];
  enable_usage = λ os. [];
  enabled = λ os. refl;
}

abbrev pub linux_enforcement : Enforcement
linux_enforcement = running_only lock_sessions

abbrev pub macos_enforcement : Enforcement
macos_enforcement = running_only lock_screen

abbrev pub windows_enforcement : Enforcement
windows_enforcement = record {
  Os = Windows.Os;
  Call = Windows.Call;
  disable_usage = Windows.disable_usage;
  enable_usage = λ os. [];
  enabled = λ os. refl;
}
