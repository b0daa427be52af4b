-- ===== src/Platform.antt =====
-- agent/src/platform: what the platforms' notifiers build and run. `Urgency` and `Notice` are in
-- Warning.antt.
pub mod Base64
pub mod Enforcement
pub mod Linux
pub mod Macos
pub mod Quoting
pub mod UserNotifier
pub mod Utf16
pub mod Windows
use taymna.Common.Text.{Str, codes}

abbrev pub app_name : Str
app_name = codes "Taymna"

abbrev pub final_warning_headline : Str
final_warning_headline = codes "SESSION ENDING"

abbrev pub final_warning_body : Str
final_warning_body =
    codes
      "Save your work and sign out of your accounts. This computer will lock when the timer reaches zero."
