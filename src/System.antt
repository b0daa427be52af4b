-- ===== src/System.antt =====
-- The agent as a whole: the loop of `run` (agent/src/main.rs) and the connection task that it spawns
-- (`run` of agent/src/client.rs), which meet in two channels, on a machine that starts them, stops
-- them, crashes or is enrolled again. One move is one round of either side; a crash inside a save is
-- a save that fails and a process that is gone.
pub mod Invariant
pub mod Lawful
pub mod Links
pub mod Sequence
pub mod Silence
pub mod Stored
pub mod Lifecycle
pub mod Refinement
use taymna.Common.{
  ℕ, ◌≡◌, ◌≢◌, Bool, true, false, Option, none, some, List, [], ◌∷◌, ◌++◌, Instant, DateTime,
}
use taymna.Common.Text.{Str}
use taymna.Storage.{Credentials, Disk, ErrorKind, invalid_data, SaveIo}
use taymna.Client.{
  ServerToAgent, ServerEvent, ClientCommand, ack_decommission, decommission_ack, min_backoff,
  finalized, disconnected,
}
use taymna.Client.Connection
use taymna.Client.Connection.{
  Act, send, forward, sleep, ok, err, go_on, return, Served, Round, Episode, doubled, round,
  connect_and_serve,
}
use taymna.External.{External}
use taymna.Agent.{Agent, Effect, disable_usage, enable_usage, command, Input, event, Flow, running}
use taymna.Agent.Rounds.{step}
use taymna.Agent.Loop.{entered, start}
use taymna.Enroll
use taymna.Enroll.{EnrollResponse, Answer, Enrolled, enroll}

-- What the agent is built on: the crates, its version, the parsers of what the server sends.
pub record World : Type 0 where
  pub external : External
  pub version : Str
  pub parse_message : Str → Option ServerToAgent
  pub message_of : Str → Option Str
  pub parse_response : Str → Option EnrollResponse

-- The connection task: about to connect, connected, or returned. `backoff` is the variable of its
-- loop.
pub data Link : Type 0 where
  down : (ack : Bool) (backoff : ℕ) → Link
  up : Connection.Connection → (backoff : ℕ) → Link
  over : Link

-- A process. It goes on for a while when its loop has been left.
pub record Process : Type 0 where
  pub agent : Agent
  pub is_looping : Bool
  pub link : Link
  pub events : List ServerEvent
  pub commands : List ClientCommand

pub data System : Type 0 where
  off : Disk → System
  on : Process → System

abbrev pub disk_of : System → Disk
disk_of (off disk) = disk
disk_of (on p) = p.agent.disk

-- What others see of a move.
pub data Action : Type 0 where
  locked unlocked acknowledged enrolled : Action

abbrev pub seen : List Effect → List Action
seen [] = []
seen (disable_usage ∷ es) = locked ∷ seen es
seen (enable_usage ∷ es) = unlocked ∷ seen es
seen (_ ∷ es) = seen es

abbrev pub sent : List Act → List Action
sent [] = []
sent (send decommission_ack ∷ acts) = acknowledged ∷ sent acts
sent (_ ∷ acts) = sent acts

abbrev pub commands_of : List Effect → List ClientCommand
commands_of [] = []
commands_of (command c ∷ es) = c ∷ commands_of es
commands_of (_ ∷ es) = commands_of es

abbrev pub forwards : List Act → List ServerEvent
forwards [] = []
forwards (forward e ∷ acts) = e ∷ forwards acts
forwards (_ ∷ acts) = forwards acts

abbrev pub loops : Flow → Bool
loops running = true
loops _ = false

-- What the loop of the connection task does behind a part of a connection.
abbrev pub settle : ℕ → Served → List Act × Link
settle backoff (acts, go_on c) = (acts, up c backoff)
settle backoff (acts, return ack (ok finalized)) = (acts, over)
settle backoff (acts, return ack (ok disconnected)) =
    (acts ++ sleep min_backoff ∷ [], down ack (doubled min_backoff))
settle backoff (acts, return ack (err e)) = (acts ++ sleep backoff ∷ [], down ack (doubled backoff))

-- The queue of events behind the one that an input takes up, and that of commands behind a round.
abbrev pub rest_of : Input → List ServerEvent → List ServerEvent
rest_of (event (some _) _ _) (_ ∷ events) = events
rest_of _ events = events

abbrev pub unread : Round → List ClientCommand → List ClientCommand
unread (Connection.command (some _) _) (_ ∷ commands) = commands
unread _ commands = commands

-- A connection that comes about takes every command that waits.
abbrev pub undrained : Option Connection.Error → List ClientCommand → List ClientCommand
undrained none commands = []
undrained (some _) commands = commands

-- An event comes from the queue, and the end of the channel when the task has returned.
abbrev pub IsOffered : Process → Input → Type 0
IsOffered p (event (some e) _ _) = (events : List ServerEvent) × (p.events ≡ e ∷ events)
IsOffered p (event none _ _) = (p.events ≡ []) × (p.link ≡ over)
IsOffered p _ = Unit {0}

-- A command comes from the queue, and the end of the channel when the loop has been left.
abbrev pub IsAwaited : Process → Round → Type 0
IsAwaited p (Connection.command (some c) _) =
    (commands : List ClientCommand) × (p.commands ≡ c ∷ commands)
IsAwaited p (Connection.command none _) = (p.commands ≡ []) × (p.is_looping ≡ false)
IsAwaited p _ = Unit {0}

abbrev pub launched : Agent → List Effect → Process
launched a effects = record {
  agent = a;
  is_looping = true;
  link = down false min_backoff;
  events = [];
  commands = commands_of effects;
}

abbrev pub linked : Process → List ClientCommand → List Act × Link → Process
linked p commands (acts, link) = record p {
  link = link;
  events = p.events ++ forwards acts;
  commands = commands;
}

module _ (w : World) where
  abbrev pub looped : Process → Input → Process
  looped p i =
      let s = step w.external p.agent i in
      record p {
        agent = s.agent;
        is_looping = loops s.flow;
        events = rest_of i p.events;
        commands = p.commands ++ commands_of s.effects;
      }

  abbrev pub served : ℕ → Connection.Connection → Round → List Act × Link
  served backoff c r = settle backoff (round w.version w.parse_message c r)

  -- The beginning of a connection, with no round so far.
  abbrev pub dialled : ℕ → Bool → Episode → List Act × Link
  dialled backoff ack ep =
      settle backoff (connect_and_serve w.version w.parse_message ack (record ep { rounds = [] }))

  abbrev pub enroll_actions : Enrolled → List Action
  enroll_actions (Enroll.ok _) = enrolled ∷ []
  enroll_actions (Enroll.err _) = []

  -- The agent is enrolled again while it is stopped. Reading does not find that the file is no
  -- text, since the files of the model are texts.
  pub data Move : System → List Action → System → Type 0 where
    boot :
        (disk : Disk) (read : Option ErrorKind) (now : DateTime) (instant : Instant)
        (c : Credentials) (a : Agent) (effects : List Effect)
        → start w.external disk read now instant ≡ entered c a effects
        → Move (off disk) [] (on (launched a effects))
    loop :
        (p : Process) (i : Input)
        → p.is_looping ≡ true
        → IsOffered p i
        → Move (on p) (seen (step w.external p.agent i).effects) (on (looped p i))
    connect :
        (p : Process) (ack : Bool) (backoff : ℕ) (ep : Episode)
        → p.link ≡ down ack backoff
        → ep.pending ≡ p.commands
        → Move
            (on p)
            (sent (dialled backoff ack ep).0)
            (on (linked p (undrained ep.connect p.commands) (dialled backoff ack ep)))
    serve :
        (p : Process) (c : Connection.Connection) (backoff : ℕ) (r : Round)
        → p.link ≡ up c backoff
        → IsAwaited p r
        → Move
            (on p)
            (sent (served backoff c r).0)
            (on (linked p (unread r p.commands) (served backoff c r)))
    vanish : (p : Process) → Move (on p) [] (off p.agent.disk)
    enroll_again :
        (disk : Disk) (server : Str) (answer : Answer) (read rename : Option ErrorKind)
        (now : DateTime) (io : SaveIo)
        → read ≢ some invalid_data
        → Move
            (off disk)
            (enroll_actions
              (enroll w.external w.message_of w.parse_response disk server answer read rename now
                io).1)
            (off
              (enroll w.external w.message_of w.parse_response disk server answer read rename now
                io).0)

  -- Any number of moves, with what others see of them.
  pub data Run : System → List Action → System → Type 0 where
    rest : (s : System) → Run s [] s
    then_move :
        {s t u : System} {before now : List Action}
        → Run s before t
        → Move t now u
        → Run s (before ++ now) u
