-- ===== src/Service.antt =====
-- agent/src/main.rs, `main`, `windows_service_support` and `wait_for_shutdown`: how the process is
-- entered and how it is asked to stop. What the system calls give is an input.
pub mod Control
pub mod Status
use taymna.Common.{
  ℕ, Bool, true, false, Option, none, some, List, [], ◌∷◌, ◌++◌, ◌||◌, if◌then◌else◌,
}
use taymna.Common.Text.{Str}

pub data Command : Type 0 where
  run : Command
  enroll : (server token : Str) → Command

-- `windows_service::Error` and `anyhow::Error`, which are only logged or passed on.
pub data ServiceError : Type 0 where
  service_error : ServiceError

pub data LoopError : Type 0 where
  loop_error : LoopError

-- What `main` does: `served` is a service that has run and stopped, `foreground` is `run` without a
-- receiver.
pub data Entry : Type 0 where
  enrolling : (server token : Str) → Entry
  served : Entry
  foreground : (dispatch_failure : Option ServiceError) → Entry

abbrev foreground_unless : Option ServiceError → Entry
foreground_unless none = served
foreground_unless (some e) = foreground (some e)

abbrev run_by_default : Option Command → Command
run_by_default none = run
run_by_default (some c) = c

abbrev entry_of : Bool → Option ServiceError → Command → Entry
entry_of windows dispatch (enroll server token) = enrolling server token
entry_of windows dispatch run = if windows then foreground_unless dispatch else foreground none

-- `windows` is how the agent was built, `dispatch` the failure of the handshake with the Service
-- Control Manager.
unfoldable pub main : (windows : Bool) → (dispatch : Option ServiceError) → Option Command → Entry
main windows dispatch command = entry_of windows dispatch (run_by_default command)

pub data ServiceControl : Type 0 where
  stop shutdown interrogate other_control : ServiceControl

pub data HandlerResult : Type 0 where
  no_error not_implemented : HandlerResult

-- The state is whether `stop_tx` is still there; the result is the new one, whether the channel is
-- sent on, and the answer.
unfoldable pub event_handler : Bool → ServiceControl → Bool × Bool × HandlerResult
event_handler stop_tx stop = (false, stop_tx, no_error)
event_handler stop_tx shutdown = (false, stop_tx, no_error)
event_handler stop_tx interrogate = (stop_tx, false, no_error)
event_handler stop_tx other_control = (stop_tx, false, not_implemented)

pub data ServiceState : Type 0 where
  running stopped : ServiceState

pub record ServiceStatus : Type 0 where
  pub current_state : ServiceState
  pub accepts_stop : Bool
  pub accepts_shutdown : Bool
  pub exit_code : ℕ

-- What `run_service` does with the Service Control Manager, and with the agent.
pub data ServiceAct : Type 0 where
  register_handler : ServiceAct
  set_status : ServiceStatus → Option ServiceError → ServiceAct
  run_agent : Option LoopError → ServiceAct

-- How its calls end. The runtime and the store are made before the agent runs.
pub record ServiceIo : Type 0 where
  pub register : Option ServiceError
  pub set_running : Option ServiceError
  pub runtime : Option LoopError
  pub store : Option LoopError
  pub agent : Option LoopError
  pub set_stopped : Option ServiceError

abbrev pub running_status : ServiceStatus
running_status = record {
  current_state = running;
  accepts_stop = true;
  accepts_shutdown = true;
  exit_code = 0;
}

abbrev pub stopped_status : ServiceStatus
stopped_status = record {
  current_state = stopped;
  accepts_stop = false;
  accepts_shutdown = false;
  exit_code = 0;
}

abbrev and_then : Option LoopError → List ServiceAct → List ServiceAct
and_then none acts = acts
and_then (some e) acts = []

-- The closure that makes the runtime and the store and runs the agent.
abbrev pub agent_acts : ServiceIo → List ServiceAct
agent_acts io = and_then io.runtime (and_then io.store (run_agent io.agent ∷ []))

abbrev behind_running : Option ServiceError → ServiceIo → List ServiceAct × Option ServiceError
behind_running (some e) io = ([], some e)
behind_running none io =
    (agent_acts io ++ set_status stopped_status io.set_stopped ∷ [], io.set_stopped)

abbrev behind_register : Option ServiceError → ServiceIo → List ServiceAct × Option ServiceError
behind_register (some e) io = ([], some e)
behind_register none io =
    let (acts, result) = behind_running io.set_running io in
    (set_status running_status io.set_running ∷ acts, result)

unfoldable pub run_service : ServiceIo → List ServiceAct × Option ServiceError
run_service io =
    let (acts, result) = behind_register io.register io in (register_handler ∷ acts, result)

-- What a waiting agent may see: a signal, a send on the receiver that it was given, or the end of
-- that receiver's sender.
pub data Wake : Type 0 where
  signal received sender_dropped : Wake

abbrev wakes : (has_receiver : Bool) → Wake → Bool
wakes has_receiver signal = true
wakes has_receiver received = has_receiver
wakes has_receiver sender_dropped = has_receiver

-- Whether `wait_for_shutdown` has returned.
unfoldable pub wait_for_shutdown : (has_receiver : Bool) → List Wake → Bool
wait_for_shutdown has_receiver [] = false
wait_for_shutdown has_receiver (w ∷ ws) = wakes has_receiver w || wait_for_shutdown has_receiver ws
