-- ===== src/Platform/Windows/Handles.antt =====
-- Which handles are opened and which are closed.
use taymna.Common.{
  ℕ, ◌+◌, ◌≡◌, refl, Option, none, some, List, [], ◌∷◌, ◌++◌, arith, All, if◌then◌else◌, nat_beq,
}
use taymna.Common.Text.{Str}
use taymna.Platform.Utf16.{powershell_command_line}
use taymna.Warning.{Notice, WarningEffect, notify, show_final_warning, dismiss_final_warning}
use taymna.Platform.Windows.Scripts.{balloon, countdown}
use taymna.Platform.Windows.{
  WinError, WinResult, ok, err, Call, open_process_token, lookup_privilege_value,
  adjust_token_privileges, query_user_token, create_process_as_user, terminate_process,
  close_handle, Os, enable_se_tcb_privilege, create_as_user, spawn_in_console_session, let_go,
  disable_usage, run_powershell, no_active_session, lock_command_line, notify_user, dismiss, held,
  show_final, apply, deliver,
}

abbrev one : ℕ → ℕ → ℕ
one h k = if nat_beq k h then 1 else 0

abbrev pub of_option : ℕ → Option ℕ → ℕ
of_option h none = 0
of_option h (some k) = one h k

abbrev of_process : ℕ → Option (ℕ × ℕ) → ℕ
of_process h none = 0
of_process h (some (process, thread)) = one h process + one h thread

-- How often a handle is given by the system, and how often it is closed.
abbrev pub opened : ℕ → List Call → ℕ
opened h [] = 0
opened h (open_process_token k ∷ calls) = of_option h k + opened h calls
opened h (query_user_token _ k ∷ calls) = of_option h k + opened h calls
opened h (create_process_as_user _ _ _ p ∷ calls) = of_process h p + opened h calls
opened h (_ ∷ calls) = opened h calls

abbrev pub closed : ℕ → List Call → ℕ
closed h [] = 0
closed h (close_handle k ∷ calls) = one h k + closed h calls
closed h (_ ∷ calls) = closed h calls

opened-append : (h : ℕ) (xs ys : List Call) → opened h (xs ++ ys) ≡ opened h xs + opened h ys
opened-append h [] ys = omega arith
opened-append h (open_process_token k ∷ xs) ys = omega (arith, opened-append h xs ys)
opened-append h (query_user_token _ k ∷ xs) ys = omega (arith, opened-append h xs ys)
opened-append h (create_process_as_user _ _ _ p ∷ xs) ys = omega (arith, opened-append h xs ys)
opened-append h (lookup_privilege_value ∷ xs) ys = opened-append h xs ys
opened-append h (adjust_token_privileges _ ∷ xs) ys = opened-append h xs ys
opened-append h (terminate_process _ ∷ xs) ys = opened-append h xs ys
opened-append h (close_handle _ ∷ xs) ys = opened-append h xs ys

closed-append : (h : ℕ) (xs ys : List Call) → closed h (xs ++ ys) ≡ closed h xs + closed h ys
closed-append h [] ys = omega arith
closed-append h (open_process_token k ∷ xs) ys = closed-append h xs ys
closed-append h (query_user_token _ k ∷ xs) ys = closed-append h xs ys
closed-append h (create_process_as_user _ _ _ p ∷ xs) ys = closed-append h xs ys
closed-append h (lookup_privilege_value ∷ xs) ys = closed-append h xs ys
closed-append h (adjust_token_privileges _ ∷ xs) ys = closed-append h xs ys
closed-append h (terminate_process _ ∷ xs) ys = closed-append h xs ys
closed-append h (close_handle _ ∷ xs) ys = omega (arith, closed-append h xs ys)

-- What a result holds of a handle.
abbrev pub in_result : ℕ → WinResult (Option ℕ) → ℕ
in_result h (ok k) = of_option h k
in_result h (err e) = 0

-- The handle of the agent's own token, where the privilege cannot be looked up.
abbrev behind_lookup : ℕ → Option WinError → WinResult ℕ → ℕ
behind_lookup h none token = 0
behind_lookup h (some e) (ok token) = one h token
behind_lookup h (some e) (err e') = 0

abbrev pub lost : ℕ → Os → ℕ
lost h os =
    if nat_beq os.session_id no_active_session then 0 else behind_lookup h os.lookup os.own_token

-- Of every start of a program in the console session, each handle that the system gives is closed
-- again, as often as it was given, but for the process that is returned, and for one case: where
-- `LookupPrivilegeValueW` fails, the agent's own token, if it was opened, is not closed.
pub spawn_in_console_session-handles :
    (h : ℕ) (command_line : Str) (os : Os)
    → let (calls, result) = spawn_in_console_session command_line os in
      opened h calls ≡ closed h calls + (in_result h result + lost h os)
unfolding spawn_in_console_session enable_se_tcb_privilege create_as_user
spawn_in_console_session-handles h command_line os = ground arith

-- The privilege can be looked up, or is not needed.
abbrev pub IsPrivileged : Os → Type 0
IsPrivileged os = os.lookup ≡ none

lost-eq-zero : (h : ℕ) (os : Os) → IsPrivileged os → lost h os ≡ 0
lost-eq-zero h os e = ground arith

let_go-handles :
    (h : ℕ) (calls : List Call) (result : WinResult (Option ℕ))
    → opened h calls ≡ closed h calls + in_result h result
    → opened h (let_go (calls, result)) ≡ closed h (let_go (calls, result))
let_go-handles h calls (ok none) e = omega arith
let_go-handles h calls (err error) e = omega arith
let_go-handles h calls (ok (some process)) e = omega (
  arith,
  opened-append h calls (close_handle process ∷ []),
  closed-append h calls (close_handle process ∷ []),
)

run_powershell-handles :
    (h : ℕ) (script : Str) (os : Os)
    → IsPrivileged os
    → let (calls, result) = run_powershell script os in
      opened h calls ≡ closed h calls + in_result h result
unfolding run_powershell
run_powershell-handles h script os e = omega (
  arith,
  lost-eq-zero h os e,
  spawn_in_console_session-handles h (powershell_command_line script) os,
)

-- If the privilege can be looked up, locking closes every handle that it is given, as often.
pub disable_usage-handles :
    (h : ℕ) (os : Os) → IsPrivileged os → opened h (disable_usage os) ≡ closed h (disable_usage os)
unfolding disable_usage
disable_usage-handles h os e =
    let (calls, result) = spawn_in_console_session lock_command_line os in
    let_go-handles h calls result
      (omega (arith, lost-eq-zero h os e, spawn_in_console_session-handles h lock_command_line os))

notify_user-handles :
    (h : ℕ) (notice : Notice) (os : Os)
    → IsPrivileged os
    → opened h (notify_user notice os) ≡ closed h (notify_user notice os)
unfolding notify_user
notify_user-handles h notice os e =
    let (calls, result) = run_powershell (balloon notice) os in
    let_go-handles h calls result (run_powershell-handles h (balloon notice) os e)

dismiss-handles :
    (h : ℕ) (state : Option ℕ)
    → (of_option h state + opened h (dismiss state).0 ≡ closed h (dismiss state).0)
      × ((dismiss state).1 ≡ none)
unfolding dismiss
dismiss-handles h none = (omega arith, refl)
dismiss-handles h (some process) = (omega arith, refl)

of_option-held :
    (h : ℕ) (state : Option ℕ) (result : WinResult (Option ℕ))
    → state ≡ none
    → of_option h (held state result) ≡ in_result h result
of_option-held h state (ok (some process)) e = refl
of_option-held h state (ok none) e = rw e refl
of_option-held h state (err error) e = rw e refl

-- What the notifier holds, and is given, is closed, or held afterwards.
apply-handles :
    (h : ℕ) (state : Option ℕ) (effect : WarningEffect) (os : Os)
    → IsPrivileged os
    → let (calls, state') = apply state effect os in
      of_option h state + opened h calls ≡ closed h calls + of_option h state'
unfolding apply show_final
apply-handles h state (notify notice) os e = omega (arith, notify_user-handles h notice os e)
apply-handles h state dismiss_final_warning os e =
    let (p, q) = dismiss-handles h state in rw q (omega (arith, p))
apply-handles h state (show_final_warning remaining) os e =
    let (calls, result) = run_powershell (countdown remaining) os in
    let closing = (dismiss state).0 in
    let (p, q) = dismiss-handles h state in
    omega (
      arith,
      p,
      run_powershell-handles h (countdown remaining) os e,
      of_option-held h (dismiss state).1 result q,
      opened-append h closing calls,
      closed-append h closing calls,
    )

-- If the privilege can be looked up whenever something is shown, then when the effects are delivered
-- and the channel has ended, every handle that the notifier held at the start or was given has been
-- closed exactly as often as it was given, whatever else failed, and it holds none.
deliver-handles :
    (h : ℕ) (state : Option ℕ) (effects : List (WarningEffect × Os))
    → All (λ e. IsPrivileged e.1) effects
    → let (calls, end) = deliver state effects in
      (of_option h state + opened h calls ≡ closed h calls) × (end ≡ none)
unfolding deliver
deliver-handles h state [] p = dismiss-handles h state
deliver-handles h state ((effect, os) ∷ effects) (p, ps) =
    let (calls, state') = apply state effect os in
    let (q, end) = deliver-handles h state' effects ps in
    let more = (deliver state' effects).0 in
    (
      omega (
        arith,
        q,
        apply-handles h state effect os p,
        opened-append h calls more,
        closed-append h calls more,
      ),
      end,
    )
