-- ===== src/Platform/Windows.antt =====
-- agent/src/platform/windows.rs: the route into the console session, `WindowsEnforcement` and
-- `WindowsNotifier`, with `apply` of agent/src/warning.rs and the warnings thread. A handle is a
-- number; the calls of the system are a list, and what the system answers is an input.
pub mod Handles
pub mod Scripts
use taymna.Common.{
  ℕ, Bool, true, false, Option, none, some, List, [], ◌∷◌, ◌++◌, if◌then◌else◌, nat_beq,
}
use taymna.Common.Int.{ℤ}
use taymna.Common.Text.{Str, codes}
use taymna.Warning.{Notice, WarningEffect, notify, show_final_warning, dismiss_final_warning}
use taymna.Platform.Utf16.{encode_utf16, powershell_command_line}
use taymna.Platform.Windows.Scripts.{balloon, countdown}

-- `windows::core::Error`, which the code only logs.
pub data WinError : Type 0 where
  win_error : (code : ℕ) → WinError

pub data WinResult {ℓ} (A : Type ℓ) : Type ℓ where
  ok : A → WinResult A
  err : WinError → WinResult A

-- The calls, with the handles that they give.
pub data Call : Type 0 where
  open_process_token : Option ℕ → Call
  lookup_privilege_value : Call
  adjust_token_privileges : (token : ℕ) → Call
  query_user_token : (session_id : ℕ) → Option ℕ → Call
  create_process_as_user :
      (token : ℕ) (command_line desktop : List ℕ) (process_thread : Option (ℕ × ℕ)) → Call
  terminate_process : ℕ → Call
  close_handle : ℕ → Call

-- What the system answers when something is started in the console session.
pub record Os : Type 0 where
  pub session_id : ℕ
  pub own_token : WinResult ℕ
  pub lookup : Option WinError
  pub adjust : Option WinError
  pub user_token : WinResult ℕ
  pub process_thread : WinResult (ℕ × ℕ)

abbrev pub no_active_session : ℕ
no_active_session = 0xFFFFFFFF

abbrev pub lock_command_line : Str
lock_command_line = codes "C:\\Windows\\System32\\rundll32.exe user32.dll,LockWorkStation"

abbrev given {ℓ} : {A : Type ℓ} → WinResult A → Option A
given (ok a) = some a
given (err e) = none

abbrev as_result : Option WinError → WinResult (Unit {0})
as_result none = ok tt
as_result (some e) = err e

-- Behind `OpenProcessToken`.
abbrev with_own_token : ℕ → Option WinError → Option WinError → List Call × WinResult (Unit {0})
with_own_token token (some e) adjust = (lookup_privilege_value ∷ [], err e)
with_own_token token none adjust = (
  lookup_privilege_value ∷ adjust_token_privileges token ∷ close_handle token ∷ [],
  as_result adjust,
)

abbrev enabling : WinResult ℕ → Option WinError → Option WinError → List Call × WinResult (Unit {0})
enabling (err e) lookup adjust = (open_process_token none ∷ [], err e)
enabling (ok token) lookup adjust =
    let (calls, result) = with_own_token token lookup adjust in
    (open_process_token (some token) ∷ calls, result)

unfoldable pub enable_se_tcb_privilege : Os → List Call × WinResult (Unit {0})
enable_se_tcb_privilege os = enabling os.own_token os.lookup os.adjust

unfoldable pub wide_null : Str → List ℕ
unfolding encode_utf16
wide_null s = encode_utf16 s ++ 0 ∷ []

-- `CloseHandle` of the thread, if there is one.
abbrev started : WinResult (ℕ × ℕ) → List Call × WinResult ℕ
started (err e) = ([], err e)
started (ok (process, thread)) = (close_handle thread ∷ [], ok process)

-- The function `create_process_as_user`.
unfoldable pub create_as_user : ℕ → Str → Os → List Call × WinResult ℕ
unfolding wide_null
create_as_user token command_line os =
    let (closing, result) = started os.process_thread in
    (
      create_process_as_user token (wide_null command_line) (wide_null (codes "winsta0\\default"))
            (given os.process_thread)
          ∷ closing,
      result,
    )

abbrev map_some : WinResult ℕ → WinResult (Option ℕ)
map_some (ok process) = ok (some process)
map_some (err e) = err e

-- Behind the privilege.
abbrev as_user : WinResult ℕ → Str → Os → List Call × WinResult (Option ℕ)
as_user (err e) command_line os = (query_user_token os.session_id none ∷ [], err e)
as_user (ok token) command_line os =
    let (creating, result) = create_as_user token command_line os in
    (
      query_user_token os.session_id (some token) ∷ (creating ++ close_handle token ∷ []),
      map_some result,
    )

abbrev privileged : List Call × WinResult (Unit {0}) → Str → Os → List Call × WinResult (Option ℕ)
privileged (calls, err e) command_line os = (calls, err e)
privileged (calls, ok _) command_line os =
    let (more, result) = as_user os.user_token command_line os in (calls ++ more, result)

unfoldable pub spawn_in_console_session : Str → Os → List Call × WinResult (Option ℕ)
unfolding enable_se_tcb_privilege create_as_user
spawn_in_console_session command_line os =
    if nat_beq os.session_id no_active_session
    then ([], ok none)
    else privileged (enable_se_tcb_privilege os) command_line os

-- `CloseHandle` of the process that a spawn gives, if it gives one.
abbrev pub let_go : List Call × WinResult (Option ℕ) → List Call
let_go (calls, ok (some process)) = calls ++ close_handle process ∷ []
let_go (calls, ok none) = calls
let_go (calls, err e) = calls

unfoldable pub disable_usage : Os → List Call
unfolding spawn_in_console_session
disable_usage os = let_go (spawn_in_console_session lock_command_line os)

unfoldable pub run_powershell : Str → Os → List Call × WinResult (Option ℕ)
unfolding spawn_in_console_session powershell_command_line
run_powershell script os = spawn_in_console_session (powershell_command_line script) os

unfoldable pub notify_user : Notice → Os → List Call
unfolding run_powershell balloon
notify_user notice os = let_go (run_powershell (balloon notice) os)

-- The state is `final_warning`: the process of the countdown window.
unfoldable pub dismiss : Option ℕ → List Call × Option ℕ
dismiss none = ([], none)
dismiss (some process) = (terminate_process process ∷ close_handle process ∷ [], none)

-- The state behind a spawn: it is set only if there is a process.
abbrev pub held : Option ℕ → WinResult (Option ℕ) → Option ℕ
held state (ok (some process)) = some process
held state (ok none) = state
held state (err e) = state

unfoldable pub show_final : Option ℕ → ℤ → Os → List Call × Option ℕ
unfolding dismiss run_powershell countdown
show_final state remaining os =
    let (closing, empty) = dismiss state in
    let (starting, result) = run_powershell (countdown remaining) os in
    (closing ++ starting, held empty result)

unfoldable pub apply : Option ℕ → WarningEffect → Os → List Call × Option ℕ
unfolding notify_user show_final dismiss
apply state (notify notice) os = (notify_user notice os, state)
apply state (show_final_warning remaining) os = show_final state remaining os
apply state dismiss_final_warning os = dismiss state

-- Every effect, and at the end of the channel one more dismissal.
unfoldable pub deliver : Option ℕ → List (WarningEffect × Os) → List Call × Option ℕ
unfolding apply
deliver state [] = dismiss state
deliver state ((effect, os) ∷ effects) =
    let (calls, state') = apply state effect os in
    let (more, end) = deliver state' effects in (calls ++ more, end)
