-- ===== src/Platform/Macos.antt =====
-- agent/src/platform/macos.rs, `MacosNotifier`, with `apply` of agent/src/warning.rs and the warnings
-- thread. A child process is a number; what is started, killed and waited for is a list of calls.
pub mod Killing
use taymna.Common.{
  ℕ, Bool, true, false, Option, none, some, List, [], ◌∷◌, ◌++◌, if◌then◌else◌, nat_beq,
}
use taymna.Common.Int.{ℤ, pos, leb_ℤ}
use taymna.Common.Text.{Str, codes, to_string}
use taymna.Warning.{Notice, WarningEffect, notify, show_final_warning, dismiss_final_warning}
use taymna.Platform.{app_name, final_warning_headline, final_warning_body}
use taymna.Platform.Quoting.{applescript_string}

pub data Call : Type 0 where
  spawn : (program : Str) (args : List Str) (child : Option ℕ) → Call
  kill : ℕ → Call
  wait : ℕ → Call

-- The owner of `/dev/console`, if that can be read, and the child that a spawn gives, if it does.
pub record Console : Type 0 where
  pub owner : Option ℕ
  pub child : Option ℕ

unfoldable pub console_user_uid : Option ℕ → Option ℕ
console_user_uid none = none
console_user_uid (some uid) = if nat_beq uid 0 then none else some uid

-- The calls, and the child.
unfoldable pub spawn_osascript : Str → Console → List Call × Option ℕ
unfolding console_user_uid to_string
spawn_osascript script c = elim (console_user_uid c.owner) [
  | none ↦ ([], none)
  | some uid ↦ (
    spawn (codes "launchctl")
          (codes "asuser"
            ∷ to_string (pos uid)
            ∷ codes "/usr/bin/osascript"
            ∷ codes "-e"
            ∷ script
            ∷ [])
          c.child
        ∷ [],
    c.child,
  )
]

unfoldable pub notify_script : Notice → Str
unfolding applescript_string
notify_script notice =
    codes "display notification "
    ++ (applescript_string notice.body
        ++ (codes " with title "
            ++ (applescript_string notice.title
                ++ (codes " subtitle " ++ applescript_string app_name))))

-- `remaining_secs.clamp(1, 600)`.
abbrev clamp : ℤ → ℤ
clamp r = if leb_ℤ r (pos 1) then pos 1 else if leb_ℤ (pos 600) r then pos 600 else r

unfoldable pub final_script : ℤ → Str
unfolding applescript_string to_string
final_script remaining =
    let seconds = to_string (clamp remaining) in
    codes "display alert "
    ++ (applescript_string final_warning_headline
        ++ (codes " message "
            ++ (applescript_string
                  (seconds ++ (codes " seconds remaining.\n\n" ++ final_warning_body))
                ++ (codes
                      " as critical buttons {\"Dismiss\"} default button \"Dismiss\" giving up after "
                    ++ seconds))))

abbrev pub wait_for : Option ℕ → List Call
wait_for none = []
wait_for (some child) = wait child ∷ []

unfoldable pub notify_user : Notice → Console → List Call
unfolding spawn_osascript notify_script
notify_user notice c =
    let (calls, child) = spawn_osascript (notify_script notice) c in calls ++ wait_for child

-- The state is `final_warning`: the process that draws the alert.
unfoldable pub dismiss : Option ℕ → List Call × Option ℕ
dismiss none = ([], none)
dismiss (some child) = (kill child ∷ wait child ∷ [], none)

unfoldable pub show_final : Option ℕ → ℤ → Console → List Call × Option ℕ
unfolding dismiss spawn_osascript final_script
show_final state remaining c =
    let (closing, empty) = dismiss state in
    let (starting, child) = spawn_osascript (final_script remaining) c in
    (closing ++ starting, child)

unfoldable pub apply : Option ℕ → WarningEffect → Console → List Call × Option ℕ
unfolding notify_user show_final dismiss
apply state (notify notice) c = (notify_user notice c, state)
apply state (show_final_warning remaining) c = show_final state remaining c
apply state dismiss_final_warning c = dismiss state

-- Every effect, and at the end of the channel one more dismissal.
unfoldable pub deliver : Option ℕ → List (WarningEffect × Console) → List Call × Option ℕ
unfolding apply
deliver state [] = dismiss state
deliver state ((effect, c) ∷ effects) =
    let (calls, state') = apply state effect c in
    let (more, end) = deliver state' effects in (calls ++ more, end)
