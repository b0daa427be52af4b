-- ===== src/Examples/Service.antt =====
-- The theorems of Service at concrete inputs.
use taymna.Common.{◌≡◌, true, none, some, [], ◌∷◌}
use taymna.Service.{
  loop_error, stop, shutdown, interrogate, other_control, no_error, not_implemented, ServiceIo,
  received, wait_for_shutdown,
}
use taymna.Service.Control.{handle_all, handle_all_lem}

handle_all_example :
    (handle_all true (interrogate ∷ stop ∷ other_control ∷ shutdown ∷ [])
      ≡ (received ∷ [], no_error ∷ no_error ∷ not_implemented ∷ no_error ∷ []))
    × (wait_for_shutdown true
          (handle_all true (interrogate ∷ stop ∷ other_control ∷ shutdown ∷ [])).0
        ≡ true)
handle_all_example = handle_all_lem (interrogate ∷ stop ∷ other_control ∷ shutdown ∷ [])

-- The agent ends with an error.
abbrev failing : ServiceIo
failing = record {
  register = none;
  set_running = none;
  runtime = none;
  store = none;
  agent = some loop_error;
  set_stopped = none;
}
