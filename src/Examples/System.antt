-- ===== src/Examples/System.antt =====
-- The theorems of System at a concrete run.
use taymna.Common.{◌≡◌, refl, true, false, none, some, Option, [], ◌∷◌, All}
use taymna.Common.Int.{pos}
use taymna.Common.Text.{Str, codes}
use taymna.Clock.{Reading}
use taymna.Storage.{Credentials, AgentState, Disk, written, SaveIo}
use taymna.Client.{ServerToAgent, ServerEvent, ack_decommission}
use taymna.Client.Connection
use taymna.System.Invariant.{IsSound}
use taymna.Client.Connection.{Episode, message, text, ended, transport}
use taymna.Agent.{command, Agent, event, tick}
use taymna.Agent.Loop.{entered, start}
use taymna.Agent.Rounds.{step}
use taymna.Agent.Durability.{decommissioned_on_disk}
use taymna.System.{
  sent, World, Process, off, on, locked, acknowledged, boot, loop, connect, serve, vanish, Run,
  rest, then_move, launched, looped, linked, served, dialled,
}
use taymna.System.Lifecycle.{Life, IsAcknowledgement}
use taymna.System.Lawful.{phase}
use taymna.System.Refinement.{Run-Life, Run-IsSound, Run-released}
use taymna.System.Silence.{IsSilent, Move-IsSilent}
use taymna.Examples.Codec.{write_state, read_state, state-RoundTrips, external}

-- A server that says anything at all decommissions.
abbrev parse : Str → Option ServerToAgent
parse [] = none
parse (_ ∷ _) = some ServerToAgent.decommission

abbrev pub world : World
world = record {
  external = external;
  version = codes "0.1.0";
  parse_message = parse;
  message_of = λ _. none;
  parse_response = λ _. none;
}

abbrev pub credentials : Credentials
credentials = record {
  server_url = codes "https://taymna.example";
  machine_id = codes "m1";
  machine_secret = codes "secret";
}

abbrev managed_state : AgentState
managed_state = record {
  credentials = some credentials;
  decommissioned = false;
  session = none;
  last_applied_at = 1000;
  trusted_high_water_mark = 2000;
}

abbrev pub disk : Disk
disk = record {
  state_json = some (write_state managed_state);
  state_json_tmp = none;
  state_json_corrupt = none;
}

abbrev fine : SaveIo
fine = record { write = written; harden = none; rename = none }

abbrev reading : Reading
reading = record { os_now = 3000; elapsed_at = 10; anchored_at = 10 }

abbrev pub agent : Agent
agent = record {
  disk = disk;
  state = managed_state;
  clock = record { high_water_mark = 2000; anchor = 0 };
  currently_blocked = true;
  warnings = record { key = none; fired = none; last_seen = none; final_visible = false };
  decommissioned = false;
  events_closed = false;
}

started : start external disk none 9 0 ≡ entered credentials agent []
unfolding start write_state read_state
started = refl

abbrev process : Process
process = launched agent []

abbrev ticked : Process
ticked = looped world process (tick reading fine)

abbrev fresh : Episode
fresh = record { connect = none; pending = []; ack_send = none; rounds = [] }

abbrev connected : Process
connected = linked ticked [] (dialled world 1 false fresh)

-- Connected, with the order to let go of the machine in the events, then accepted, then acknowledged.
abbrev first : Connection.Connection
first = record { ack_decommission = false; greeted = false }

abbrev ordered : Process
ordered = linked connected [] (served world 1 first (message (text (codes "{}")) (pos 1) none))

abbrev accepted : Process
accepted = looped world ordered (event (some ServerEvent.decommission) 20 fine)

abbrev greeted : Connection.Connection
greeted = record { ack_decommission = false; greeted = true }

abbrev pub finished : Process
finished =
    linked accepted [] (served world 1 greeted (Connection.command (some ack_decommission) none))

before : Run world (off disk) (locked ∷ []) (on connected)
unfolding step Connection.connect_and_serve Connection.serve
before =
    then_move
      (then_move (then_move (rest (off disk)) (boot disk none 9 0 credentials agent [] started))
        (loop process (tick reading fine) refl tt))
      (connect ticked false 1 fresh refl refl)

after_order : Run world (off disk) (locked ∷ []) (on accepted)
unfolding step Connection.connect_and_serve Connection.serve Connection.round
    Connection.handle_message
after_order =
    then_move
      (then_move before
        (serve connected first 1 (message (text (codes "{}")) (pos 1) none) refl tt))
      (loop ordered (event (some ServerEvent.decommission) 20 fine) refl ([], refl))

pub run : Run world (off disk) (locked ∷ acknowledged ∷ []) (off finished.agent.disk)
unfolding step Connection.connect_and_serve Connection.serve Connection.round
    Connection.handle_message
run =
    then_move
      (then_move after_order (
        serve accepted greeted 1 (Connection.command (some ack_decommission) none) refl ([], refl)))
      (vanish finished)

Run-Life_example :
    Life (phase external disk) (locked ∷ acknowledged ∷ []) (phase external finished.agent.disk)
Run-Life_example =
    Run-Life world state-RoundTrips disk (off finished.agent.disk) (locked ∷ acknowledged ∷ []) run

Run-IsSound_example : IsSound world (on accepted)
Run-IsSound_example =
    Run-IsSound world state-RoundTrips disk (on accepted) (locked ∷ []) after_order

-- The same machine, started again.
abbrev released_state : AgentState
released_state = record managed_state { decommissioned = true; session = none }

abbrev released_disk : Disk
released_disk = record disk { state_json = some (write_state released_state) }

found : decommissioned_on_disk external released_disk ≡ true
unfolding decommissioned_on_disk write_state read_state
found = refl

abbrev released_agent : Agent
released_agent = record agent {
  disk = released_disk;
  state = released_state;
  decommissioned = true;
}

restarted :
    start external released_disk none 9 0
    ≡ entered credentials released_agent (command ack_decommission ∷ [])
unfolding start write_state read_state
restarted = refl

abbrev again : Process
again = launched released_agent (command ack_decommission ∷ [])

abbrev asked : Episode
asked = record fresh { pending = ack_decommission ∷ [] }

release :
    Run world
      (off released_disk)
      (acknowledged ∷ [])
      (on (linked again [] (dialled world 1 false asked)))
unfolding Connection.connect_and_serve Connection.serve
release =
    then_move
      (then_move (rest (off released_disk)) (
        boot released_disk none 9 0 credentials released_agent (command ack_decommission ∷ [])
          restarted))
      (connect again false 1 asked refl refl)

Run-released_example :
    All IsAcknowledgement (acknowledged ∷ [])
    × (decommissioned_on_disk external released_disk ≡ true)
Run-released_example =
    Run-released world state-RoundTrips released_disk
      (on (linked again [] (dialled world 1 false asked))) (acknowledged ∷ []) found release
      (tt, tt)

-- The server asks again on that connection.
abbrev greeting : Process
greeting = linked again [] (dialled world 1 false asked)

abbrev acknowledging : Connection.Connection
acknowledging = record { ack_decommission = true; greeted = false }

Move-IsSilent_example :
    (sent (served world 1 acknowledging (message (text (codes "{}")) (pos 3) none)).0 ≡ [])
    × IsSilent (
        on (
          linked greeting []
            (served world 1 acknowledging (message (text (codes "{}")) (pos 3) none))))
unfolding Connection.connect_and_serve Connection.serve
Move-IsSilent_example =
    Move-IsSilent world (on greeting)
      (on (
        linked greeting []
          (served world 1 acknowledging (message (text (codes "{}")) (pos 3) none))))
      (sent (served world 1 acknowledging (message (text (codes "{}")) (pos 3) none)).0)
      (serve greeting acknowledging 1 (message (text (codes "{}")) (pos 3) none) refl tt)
      (acknowledging, 1, refl) (refl, refl)
