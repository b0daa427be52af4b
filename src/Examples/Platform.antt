-- ===== src/Examples/Platform.antt =====
-- The theorems of Platform at concrete inputs.
use taymna.Common.{◌↔◌, false, ◌+◌, ◌≡◌, refl, none, some, List, [], ◌∷◌, ◌++◌, map}
use taymna.Common.Int.{pos}
use taymna.Common.Text.{Str, codes}
use taymna.Session.{SessionSnapshot, active}
use taymna.Warning.{
  Notice, critical, DeadlineKey, WarningEffect, new, reconcile, show_final_warning,
  dismiss_final_warning,
}
use taymna.Platform.Quoting.{
  IsPlain, powershell_string, read_powershell, read_powershell-powershell_string,
}
use taymna.Platform.Enforcement.{enforced, on_tick-enforced}
use taymna.Platform.Enforcement.Instances.{
  lock_sessions, lock_screen, linux_enforcement, macos_enforcement, windows_enforcement,
}
use taymna.Agent.{disable_usage, enable_usage}
use taymna.Agent.Rounds.{on_tick}
use taymna.Clock
use taymna.Session.Enforcement.{IsLive}
use taymna.Examples.Agent.{expired_agent, reading, full}
use taymna.Examples.Codec.{external}
use taymna.Platform.Macos.{Console}
use taymna.Platform.Windows
use taymna.Platform.Windows.Handles
use taymna.Platform.Windows.Handles.{of_option, in_result, lost, spawn_in_console_session-handles}
use taymna.Platform.Linux.{DesktopSession, Shown, printed, active_desktop_session}
use taymna.Platform.Linux.Notifier
use taymna.Platform.Linux.Notifier.{Os, close_args}
use taymna.Platform.UserNotifier.{apply_all, deliver}
use taymna.Platform.UserNotifier.Instances.{windows}
use taymna.Platform.UserNotifier.Screen.{effects_of, IsShowable, deliver-screen}
use taymna.Warning.CountDown.{Tick, count_down}
use taymna.Platform.Linux.Notifier.Closing.{
  Delivery, closings, shown_ids, IsReachable, closings-deliver,
}
use taymna.Examples.Codec.{seconds}

read_powershell-powershell_string_example :
    (read_powershell (powershell_string (codes "'; calc; '") ++ codes " 10")
      ≡ some (codes "'; calc; '", codes " 10"))
    ↔ IsPlain (codes "'; calc; '")
read_powershell-powershell_string_example =
    read_powershell-powershell_string (codes "'; calc; '") (codes " 10") refl

-- A text with U+2019 in it ends the literal there.
breaks_out :
    read_powershell (powershell_string (8217 ∷ codes "; calc")) ≡ some ([], codes "; calc'")
unfolding read_powershell powershell_string
breaks_out = refl

abbrev listed : Str
listed = codes "c1 1000 ann seat0\n"

abbrev show : Str → Shown
show id = printed (codes "Name=ann\nUser=1000\nType=x11\nActive=yes\n")

abbrev ann : DesktopSession
ann = record { user = codes "ann"; uid = 1000 }

found : active_desktop_session (some listed) show ≡ some ann
unfolding active_desktop_session
found = refl

-- A notification daemon that gives the id 7.
abbrev os : Os
os = record { listed = some listed; show = show; output = some (codes "7\n") }

abbrev deliveries : List Delivery
deliveries = (show_final_warning (pos 30), (os, os)) ∷ (show_final_warning (pos 20), (os, os)) ∷ []

reachable : IsReachable os
reachable = (ann, found)

closings-deliver_example :
    (closings (Notifier.deliver none deliveries os).0 ≡ map close_args (shown_ids deliveries))
    × ((Notifier.deliver none deliveries os).1 ≡ none)
closings-deliver_example =
    closings-deliver none deliveries os (reachable, (reachable, tt)) reachable

abbrev an_hour : SessionSnapshot
an_hour = record {
  id = codes "s1";
  started_at = 0;
  expires_at = 3600000000000;
  status = active;
  updated_at = 0;
}

abbrev key : DeadlineKey
key = record { session_id = codes "s1"; expires_at = 3600000000000 }

-- A console user, for whom a process can be started or not.
abbrev started : Console
started = record { owner = some 501; child = some 7 }

abbrev not_started : Console
not_started = record { owner = some 501; child = none }

abbrev final_effects : List (WarningEffect × Console)
final_effects =
    (show_final_warning (pos 30), started) ∷ (show_final_warning (pos 20), not_started) ∷ []

-- A console session in which programs can be started, with the handles that are given.
abbrev console : Windows.Os
console = record {
  session_id = 1;
  own_token = Windows.ok 4;
  lookup = none;
  adjust = none;
  user_token = Windows.ok 8;
  process_thread = Windows.ok (12, 16);
}

abbrev windows_effects : List (WarningEffect × Windows.Os)
windows_effects = (show_final_warning (pos 30), console) ∷ (dismiss_final_warning, console) ∷ []

spawn_in_console_session-handles_example :
    let (calls, result) = Windows.spawn_in_console_session (codes "a.exe") console in
    Handles.opened 12 calls ≡ Handles.closed 12 calls + (in_result 12 result + lost 12 console)
spawn_in_console_session-handles_example =
    spawn_in_console_session-handles 12 (codes "a.exe") console

abbrev five_minutes : Notice
five_minutes = record {
  title = codes "5 minutes remaining";
  body = codes "Save your work.";
  urgency = critical;
}

-- One tick, twenty seconds before the end.
abbrev late_ticks : List Tick
late_ticks = (some an_hour, 3580000000000) ∷ []

abbrev late_effects : List (WarningEffect × Windows.Os)
late_effects = (show_final_warning (pos 20), console) ∷ []

decided : effects_of windows late_effects ≡ (count_down seconds new late_ticks).1
unfolding count_down reconcile new seconds
decided = refl

showable : IsShowable windows (show_final_warning (pos 20), console)
unfolding Windows.run_powershell
showable = refl

deliver-screen_example :
    (windows.is_up (apply_all windows none late_effects).1
      ≡ (count_down seconds new late_ticks).0.final_visible)
    × (windows.is_up (deliver windows none late_effects console).1 ≡ false)
deliver-screen_example =
    deliver-screen windows seconds late_ticks none late_effects console refl decided (showable, tt)

on_tick-enforced_example :
    let calls =
      enforced windows_enforcement console (on_tick external expired_agent reading full).effects in
    let session = expired_agent.state.session in
    let now = (Clock.now some expired_agent.clock reading).1 in
    (IsLive session now → calls ≡ [])
    × (¬ IsLive session now → calls ≡ Windows.disable_usage console)
on_tick-enforced_example =
    on_tick-enforced windows_enforcement external expired_agent reading full console

locks_sessions :
    enforced linux_enforcement tt (disable_usage ∷ enable_usage ∷ []) ≡ lock_sessions ∷ []
locks_sessions = refl

locks_screen : enforced macos_enforcement tt (enable_usage ∷ disable_usage ∷ []) ≡ lock_screen ∷ []
locks_screen = refl
