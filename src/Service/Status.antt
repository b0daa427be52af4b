-- ===== src/Service/Status.antt =====
-- What the Service Control Manager is told.
use taymna.Common.{◌≡◌, ◌⊎◌, Option, none, some, List, [], ◌∷◌, arith}
use taymna.Service.{
  ServiceError, LoopError, ServiceStatus, ServiceAct, set_status, run_agent, ServiceIo,
  running_status, stopped_status, run_service,
}

abbrev pub reports : List ServiceAct → List ServiceStatus
reports [] = []
reports (set_status status none ∷ acts) = status ∷ reports acts
reports (_ ∷ acts) = reports acts

abbrev pub runs : List ServiceAct → List (Option LoopError)
runs [] = []
runs (run_agent result ∷ acts) = result ∷ runs acts
runs (_ ∷ acts) = runs acts

-- If the handler can be registered and both statuses can be set, the Service Control Manager is told
-- that the service runs and then that it has stopped, with the exit code 0, and the service ends
-- without an error, in whichever way the runtime, the store or the agent failed; the agent has run
-- exactly if the runtime and the store could be made.
pub run_service-reports :
    (io : ServiceIo)
    → io.register ≡ none
    → io.set_running ≡ none
    → io.set_stopped ≡ none
    → let (acts, result) = run_service io in
      (reports acts ≡ running_status ∷ stopped_status ∷ [])
      × (result ≡ none)
      × (runs acts ≡ elim io.runtime [
        | some e ↦ []
        | none ↦ elim io.store [ some e ↦ [] | none ↦ io.agent ∷ [] ]
      ])
unfolding run_service
run_service-reports io r s t = ground arith

-- The agent runs only as a service that has been reported as running: if the handler cannot be
-- registered or that report cannot be made, it does not run, nothing is reported, and the error is
-- returned.
pub run_service-refused :
    (io : ServiceIo) (e : ServiceError)
    → (io.register ≡ some e) ⊎ ((io.register ≡ none) × (io.set_running ≡ some e))
    → let (acts, result) = run_service io in
      (runs acts ≡ []) × (reports acts ≡ []) × (result ≡ some e)
unfolding run_service
run_service-refused io e h = ground arith
