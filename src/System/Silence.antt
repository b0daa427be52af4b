-- ===== src/System/Silence.antt =====
-- What a released machine says on a connection that is up.
use taymna.Common.{
  ◌∙◌, ℕ, ◌≡◌, ◌≢◌, refl, true, false, Bool, Option, none, some, List, [], ◌∷◌, arith,
}
use taymna.Common.Text.{Str}
use taymna.External.{External}
use taymna.Client.{
  min_backoff, finalized, disconnected, ServerEvent, ServerToAgent, heartbeat, ack_decommission,
}
use taymna.Client.Connection
use taymna.Client.Connection.{
  go_on, return, ok, err, Act, send, Next, Round, round, heartbeat_due, message, text, close,
  skipped, failed, ended,
}
use taymna.Agent.{Agent, Input, shutdown, event, tick}
use taymna.Agent.Rounds.{step}
use taymna.System.{
  World, Link, Process, System, off, on, Action, up, down, Move, loop, connect, serve, vanish, boot,
  enroll_again, seen, sent, commands_of, IsAwaited, unread, settle,
}
use taymna.System.Links.{asks, sent-handle_message, sent-sleep}

step_silent :
    (x : External) (a : Agent) (i : Input)
    → a.decommissioned ≡ true
    → let s = step x a i in
      (seen s.effects ≡ []) × (commands_of s.effects ≡ []) × (s.agent.decommissioned ≡ true)
unfolding step
step_silent x a (shutdown io) d = ground arith
step_silent x a (event none instant io) d = ground arith
step_silent x a (event (some ServerEvent.decommission) instant io) d = ground arith
step_silent x a (event (some (ServerEvent.session_state s t)) instant io) d = ground arith
step_silent x a (event (some (ServerEvent.server_time t)) instant io) d = ground arith
step_silent x a (tick reading io) d = ground arith

module _ (version : Str) (parse : Str → Option ServerToAgent) where
  round_silent :
      (c : Connection.Connection) (r : Round)
      → asks r ≡ false
      → sent (round version parse c r).0 ≡ []
  unfolding round
  round_silent c (heartbeat_due at_ms e) h = ground arith
  round_silent c (Connection.command none e) h = ground arith
  round_silent c (Connection.command (some ack_decommission) e) h = absurd (ground arith)
  round_silent c (message (text s) at_ms e) h =
      let (p, q) = sent-handle_message parse s (send (heartbeat at_ms version) ∷ []) in
      ground (arith, p, q)
  round_silent c (message (close code) at_ms e) h = ground arith
  round_silent c (message skipped at_ms e) h = ground arith
  round_silent c (message (failed error) at_ms e) h = ground arith
  round_silent c (message ended at_ms e) h = ground arith

settle_silent :
    (backoff : ℕ) (acts : List Act) (next : Next) → sent (settle backoff (acts, next)).0 ≡ sent acts
settle_silent backoff acts (go_on c) = refl
settle_silent backoff acts (return ack (ok finalized)) = refl
settle_silent backoff acts (return ack (ok disconnected)) = sent-sleep acts min_backoff
settle_silent backoff acts (return ack (err e)) = sent-sleep acts backoff

-- The loop has accepted the decommission, and the task has taken up every command.
abbrev pub IsSilent : System → Type 0
IsSilent (off disk) = Unit {0}
IsSilent (on p) = (p.agent.decommissioned ≡ true) × (p.commands ≡ [])

abbrev pub IsConnected : System → Type 0
IsConnected (off disk) = ⊥
IsConnected (on p) = (c : Connection.Connection) × (backoff : ℕ) × (p.link ≡ up c backoff)

asks-IsAwaited :
    (p : Process) (r : Round)
    → p.commands ≡ []
    → IsAwaited p r
    → (asks r ≡ false) × (unread r p.commands ≡ [])
asks-IsAwaited p (Connection.command (some ack_decommission) e) h (rest, k) = absurd (ground arith)
asks-IsAwaited p (Connection.command none e) h k = (refl, h)
asks-IsAwaited p (heartbeat_due at_ms e) h k = (refl, h)
asks-IsAwaited p (message m at_ms e) h k = (refl, h)

down-up :
    (l : Link) (ack : Bool) (b : ℕ) (c : Connection.Connection) (b' : ℕ)
    → l ≡ down ack b
    → l ≢ up c b'
down-up l ack b c b' h k = absurd (ground arith)

-- In a connection that is up, once the loop has accepted the decommission and the task has taken up
-- every command, nothing more is acknowledged: whatever the server says, also when it asks for the
-- decommission again, and whatever else happens, each move while the connection is up is seen by
-- nobody, and afterwards the loop is still decommissioned and no command waits.
pub Move-IsSilent :
    (w : World) (s t : System) (actions : List Action)
    → Move w s actions t
    → IsConnected s
    → IsSilent s
    → (actions ≡ []) × IsSilent t
Move-IsSilent w s t actions (boot disk read now instant c a effects e) up_now h = absurd up_now
Move-IsSilent w s t actions (loop p i l o) up_now (d, q) =
    let (quiet, none_left, still) = step_silent w.external p.agent i d in
    (quiet, (still, rw (q, none_left) refl))
Move-IsSilent w s t actions (connect p ack b ep l pending) (c, b', u) h =
    absurd (down-up p.link ack b c b' l u)
Move-IsSilent w s t actions (serve p c b r l awaited) up_now (d, q) =
    let (quiet, rest) = asks-IsAwaited p r q awaited in
    let (acts, next) = round w.version w.parse_message c r in
    (settle_silent b acts next ∙ round_silent w.version w.parse_message c r quiet, (d, rest))
Move-IsSilent w s t actions (vanish p) up_now h = (refl, tt)
Move-IsSilent w s t actions (enroll_again disk server answer read rename now io k) up_now h =
    absurd up_now
