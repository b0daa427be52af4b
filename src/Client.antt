-- ===== src/Client.antt =====
-- agent/src/client.rs: the connection to the server. What the network, the timers and the run loop
-- do is a list of events; what the task does is the list of what it sends and forwards.
pub mod Connection
pub mod Url
use taymna.Common.{
  ℕ, ◌*◌, Bool, true, false, ◌&&◌, ◌||◌, Option, none, some, List, [], ◌∷◌, ◌++◌, DateTime, min,
  if◌then◌else◌, nat_beq,
}
use taymna.Common.Int.{ℤ}
use taymna.Common.Text.{Str, codes, trim_end_matches, strip_prefix}
use taymna.Session.{SessionSnapshot}
use taymna.Storage.{Credentials}

-- In seconds.
abbrev pub heartbeat_interval : ℕ
heartbeat_interval = 20

abbrev pub min_backoff : ℕ
min_backoff = 1

abbrev pub max_backoff : ℕ
max_backoff = 30

pub data AgentToServer : Type 0 where
  heartbeat : (at_ms : ℤ) (version : Str) → AgentToServer
  decommission_ack : AgentToServer

pub data ClientCommand : Type 0 where
  ack_decommission : ClientCommand

abbrev pub decommission_finalized_code : ℕ
decommission_finalized_code = 4003

abbrev pub invalid_credential_code : ℕ
invalid_credential_code = 4001

pub data ServerToAgent : Type 0 where
  session_state : Option SessionSnapshot → (server_time : DateTime) → ServerToAgent
  heartbeat_ack : (server_time : DateTime) → ServerToAgent
  decommission : ServerToAgent
  error : (code message : Str) → ServerToAgent

pub data ServerEvent : Type 0 where
  session_state : Option SessionSnapshot → (message_time : DateTime) → ServerEvent
  server_time : DateTime → ServerEvent
  decommission : ServerEvent

pub data Outcome : Type 0 where
  disconnected finalized : Outcome

abbrev pub message_time : Option SessionSnapshot → DateTime → DateTime
message_time none time = time
message_time (some s) time = s.updated_at

abbrev pub event_of : ServerToAgent → Option ServerEvent
event_of (ServerToAgent.session_state session time) =
    some (ServerEvent.session_state session (message_time session time))
event_of (heartbeat_ack time) = some (server_time time)
event_of ServerToAgent.decommission = some ServerEvent.decommission
event_of (error code message) = none

-- The `Authorization` header.
unfoldable pub auth_value : Credentials → Str
auth_value c = codes "Machine " ++ (c.machine_id ++ b'.' ∷ c.machine_secret)

-- The three branches of `to_ws_url`.
pub ws_url_of : Str → Str
unfolding strip_prefix
ws_url_of base = elim (strip_prefix (codes "https://") base) [
  | some rest ↦ codes "wss://" ++ (rest ++ codes "/ws")
  | none ↦ elim (strip_prefix (codes "http://") base) [
    | some rest ↦ codes "ws://" ++ (rest ++ codes "/ws")
    | none ↦ codes "wss://" ++ (base ++ codes "/ws")
  ]
]

unfoldable pub to_ws_url : Str → Str
unfolding ws_url_of trim_end_matches
to_ws_url server_url = ws_url_of (trim_end_matches b'/' server_url)
