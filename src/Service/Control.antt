-- ===== src/Service/Control.antt =====
-- What the Service Control Manager is answered, and what reaches the agent.
use taymna.Common.{◌≡◌, refl, Bool, true, false, List, [], ◌∷◌, if◌then◌else◌, arith, ◌||◌}
use taymna.Service.{
  ServiceControl, stop, shutdown, interrogate, other_control, HandlerResult, no_error,
  not_implemented, event_handler, Wake, received, wait_for_shutdown,
}

-- The sends on the channel and the answers, for a sequence of controls.
unfoldable pub handle_all : Bool → List ServiceControl → List Wake × List HandlerResult
unfolding event_handler
handle_all stop_tx [] = ([], [])
handle_all stop_tx (c ∷ controls) =
    let (stop_tx', sends, answer) = event_handler stop_tx c in
    let (wakes, answers) = handle_all stop_tx' controls in
    (if sends then received ∷ wakes else wakes, answer ∷ answers)

abbrev asks_to_stop : ServiceControl → Bool
asks_to_stop stop = true
asks_to_stop shutdown = true
asks_to_stop interrogate = false
asks_to_stop other_control = false

abbrev pub any_stop : List ServiceControl → Bool
any_stop [] = false
any_stop (c ∷ controls) = asks_to_stop c || any_stop controls

abbrev answer_to : ServiceControl → HandlerResult
answer_to other_control = not_implemented
answer_to _ = no_error

abbrev pub answers_to : List ServiceControl → List HandlerResult
answers_to [] = []
answers_to (c ∷ controls) = answer_to c ∷ answers_to controls

handle_all_spent :
    (controls : List ServiceControl) → handle_all false controls ≡ ([], answers_to controls)
unfolding handle_all
handle_all_spent [] = refl
handle_all_spent (stop ∷ controls) = ground (arith, handle_all_spent controls)
handle_all_spent (shutdown ∷ controls) = ground (arith, handle_all_spent controls)
handle_all_spent (interrogate ∷ controls) = ground (arith, handle_all_spent controls)
handle_all_spent (other_control ∷ controls) = ground (arith, handle_all_spent controls)

-- Whatever controls the Service Control Manager sends, in whatever number and order, the channel is
-- sent on once if one of them is a stop or a shutdown, and otherwise not; so the agent that waits on
-- it, and sees no signal, stops exactly then; a stop, a shutdown and an interrogation are answered
-- with no error and every other control as not implemented.
pub handle_all_lem :
    (controls : List ServiceControl)
    → (handle_all true controls
        ≡ (if any_stop controls then received ∷ [] else [], answers_to controls))
      × (wait_for_shutdown true (handle_all true controls).0 ≡ any_stop controls)
unfolding handle_all wait_for_shutdown
handle_all_lem [] = (refl, refl)
handle_all_lem (stop ∷ controls) = ground (arith, handle_all_spent controls)
handle_all_lem (shutdown ∷ controls) = ground (arith, handle_all_spent controls)
handle_all_lem (interrogate ∷ controls) = ground (arith, handle_all_lem controls)
handle_all_lem (other_control ∷ controls) = ground (arith, handle_all_lem controls)
