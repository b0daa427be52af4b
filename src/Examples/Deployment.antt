-- ===== src/Examples/Deployment.antt =====
-- The theorems of Deployment at a concrete course: the agent of System is told to let go of its
-- machine, does so and acknowledges, the server forgets the machine, and the agent starts again.
use taymna.Common.{◌≡◌, refl, Bool, true, false, none, some, [], ◌∷◌, All}
use taymna.Common.Text.{Str, codes}
use taymna.Server.Machines.{Slice, acknowledge, finalize_decommission, perform}
use taymna.System.{Process, launched, linked, dialled, boot, connect, on, off, locked, acknowledged}
use taymna.System.Lifecycle.{IsAcknowledgement}
use taymna.Deployment.{Deployment, move, arrive, Course, begin, then_step}
use taymna.Deployment.Runs.{beside, Course-run}
use taymna.Deployment.Covered.{Released}
use taymna.Deployment.Removal.{Course-no_orphan}
use taymna.Examples.Codec.{state-RoundTrips}
use taymna.Storage.{AgentState}
use taymna.Agent.{Agent, command}
use taymna.Client.{ack_decommission}
use taymna.Client.Connection.{Episode}
use taymna.Agent.Loop.{start, entered}
use taymna.Agent.Rounds.{step}
use taymna.Client.Connection
use taymna.Examples.Codec.{external, write_state, read_state}
use taymna.Examples.System.{agent, credentials, world, disk, finished, run}

abbrev always : Str → Str → Bool
always a b = true

abbrev row : Slice
row = record {
  row = some (record {
    credential_hash = some (codes "hash");
    credential_revoked_at = none;
    decommission_requested_at = some 5;
    last_seen_at = none;
  });
  tokens = [];
  connected = true;
}

abbrev at_first : Deployment
at_first = beside row (off disk) 0

abbrev forgotten : Deployment
forgotten = beside (perform always acknowledge row).0 (off finished.agent.disk) 0

gone : forgotten.slice.row ≡ none
unfolding perform finalize_decommission
gone = refl

removal : Course world always at_first (locked ∷ acknowledged ∷ []) (acknowledge ∷ []) forgotten
removal = then_step (Course-run world always row run) (arrive _ 0 refl)

-- Behind that the agent starts again, and acknowledges once more.
abbrev state : AgentState
state = record {
  credentials = some credentials;
  decommissioned = true;
  session = none;
  last_applied_at = 1000;
  trusted_high_water_mark = 3000;
}

abbrev restarted : Agent
restarted = record agent {
  disk = finished.agent.disk;
  state = state;
  clock = record { high_water_mark = 3000; anchor = 0 };
  decommissioned = true;
}

starts :
    start external finished.agent.disk none 9 0
    ≡ entered credentials restarted (command ack_decommission ∷ [])
unfolding start write_state read_state step Connection.connect_and_serve Connection.serve
    Connection.round Connection.handle_message
starts = refl

abbrev again : Process
again = launched restarted (command ack_decommission ∷ [])

abbrev asked : Episode
asked = record { connect = none; pending = ack_decommission ∷ []; ack_send = none; rounds = [] }

abbrev once_more : Deployment
once_more = beside forgotten.slice (on (linked again [] (dialled world 1 false asked))) 1

restart : Course world always forgotten (acknowledged ∷ []) [] once_more
unfolding Connection.connect_and_serve Connection.serve
restart =
    then_step
      (then_step (begin forgotten) (
        move forgotten [] (on again) (
          boot finished.agent.disk none 9 0 credentials restarted (command ack_decommission ∷ [])
            starts)))
      (move (beside forgotten.slice (on again) 0) (acknowledged ∷ []) once_more.agent
        (connect again false 1 asked refl refl))

Course-no_orphan_example :
    Released world forgotten × Released world once_more × All IsAcknowledgement (acknowledged ∷ [])
Course-no_orphan_example =
    Course-no_orphan world always state-RoundTrips at_first forgotten once_more
      (locked ∷ acknowledged ∷ []) (acknowledged ∷ []) (acknowledge ∷ []) [] disk refl refl refl
      removal (tt, (tt, tt)) (tt, tt) gone restart (tt, tt)
