-- ===== src/Agent/Offline.antt =====
-- The loop without news of a session.
use taymna.Common.{
  ◌≡◌, ◌≤◌, Bool, Option, none, some, List, [], ◌∷◌, ◌++◌, map, arith, Instant, DateTime, All,
  All-append,
}
use taymna.Storage
use taymna.Storage.{AgentState, Result, ok, err, SaveIo}
use taymna.Clock
use taymna.Clock.{ClockGuard, Reading, resync_from_server}
use taymna.Clock.Rollback.{now_bounds}
use taymna.Session.{SessionSnapshot, active, Desired, blocked, advance}
use taymna.Warning.{WarningEffect}
use taymna.External.{External}
use taymna.Client.{ServerEvent}
use taymna.Agent.{
  Effect, disable_usage, enable_usage, warn, command, save, Agent, Input, shutdown, event, tick,
  enforce, on_success, Flow-cases,
}
use taymna.Agent.Rounds.{before_save, on_tick, step}
use taymna.Agent.Loop.{run_loop}

-- No message about a session.
abbrev pub IsOffline : Input → Type 0
IsOffline (event (some (ServerEvent.session_state _ _)) _ _) = ⊥
IsOffline _ = Unit {0}

-- There is no session, or it is not active, or the trusted time has reached its deadline.
abbrev pub IsOver : Option SessionSnapshot → DateTime → Type 0
IsOver none mark = Unit {0}
IsOver (some s) mark = (s.status ≡ active) → s.expires_at ≤ mark

abbrev pub NeverUnlocks : Effect → Type 0
NeverUnlocks enable_usage = ⊥
NeverUnlocks _ = Unit {0}

-- What a tick does first.
abbrev LocksFirst : List Effect → Type 0
LocksFirst (disable_usage ∷ es) = All NeverUnlocks es
LocksFirst _ = ⊥

warnings_never :
    (ws : List WarningEffect) (es : List Effect)
    → All NeverUnlocks es
    → All NeverUnlocks (map warn ws ++ es)
warnings_never [] es h = h
warnings_never (w ∷ ws) es h = (tt, warnings_never ws es h)

saves_never :
    (state : AgentState) (result : Result (Unit {0}))
    → All NeverUnlocks (save state result ∷ on_success result [])
saves_never state (ok _) = (tt, tt)
saves_never state (err _) = (tt, tt)

enforce_blocked :
    (desired : Desired) (locked : Bool)
    → desired ≡ blocked
    → (enforce desired locked).0 ≡ disable_usage ∷ []
unfolding enforce
enforce_blocked desired locked h = ground arith

locks_first :
    (acts : List Effect) (ws : List WarningEffect) (es : List Effect)
    → acts ≡ disable_usage ∷ []
    → All NeverUnlocks es
    → LocksFirst ((acts ++ map warn ws) ++ es)
locks_first acts ws es e h = rw (e) (warnings_never ws es h)

LocksFirst-NeverUnlocks : (es : List Effect) → LocksFirst es → All NeverUnlocks es
LocksFirst-NeverUnlocks [] h = elim h [ ]
LocksFirst-NeverUnlocks (disable_usage ∷ es) h = (tt, h)
LocksFirst-NeverUnlocks (enable_usage ∷ es) h = elim h [ ]
LocksFirst-NeverUnlocks (warn _ ∷ es) h = elim h [ ]
LocksFirst-NeverUnlocks (command _ ∷ es) h = elim h [ ]
LocksFirst-NeverUnlocks (save _ _ ∷ es) h = elim h [ ]

advance_of_IsOver :
    (session : Option SessionSnapshot) (mark now : DateTime)
    → IsOver session mark
    → mark ≤ now
    → ((advance session now).1 ≡ blocked) × IsOver (advance session now).0 now
unfolding advance
advance_of_IsOver none mark now h k = ground arith
advance_of_IsOver (some s) mark now h k = ground arith

resync_of_IsOver :
    (session : Option SessionSnapshot) (guard : ClockGuard) (time : DateTime) (instant : Instant)
    → IsOver session guard.high_water_mark
    → IsOver session (resync_from_server guard time instant).high_water_mark
unfolding resync_from_server
resync_of_IsOver none guard time instant h = tt
resync_of_IsOver (some s) guard time instant h = ground arith

module _ (x : External) where
  -- Without a session that has time left, a tick of an agent that has not been decommissioned
  -- locks the machine before anything else and does not unlock it, and leaves no session with time
  -- left, whatever the clocks read and however its save ends.
  on_tick-LocksFirst :
      (a : Agent) (reading : Reading) (io : SaveIo)
      → IsOver a.state.session a.clock.high_water_mark
      → let s = on_tick x a reading io in
        LocksFirst s.effects × IsOver s.agent.state.session s.agent.clock.high_water_mark
  unfolding on_tick
  on_tick-LocksFirst a reading io h =
      let now = (Clock.now x.from_std a.clock reading).1 in
      let (after, _, mark, _) = now_bounds x.from_std a.clock reading in
      let (still, over) = advance_of_IsOver a.state.session a.clock.high_water_mark now h after in
      let (b, acts, ws) = before_save x a reading in
      let desired = (advance a.state.session now).1 in
      let result = (Storage.save x.to_json b.disk b.state io).1 in
      (
        locks_first acts ws (save b.state result ∷ on_success result [])
            (enforce_blocked desired a.currently_blocked still) (saves_never b.state result),
        over,
      )

  pub step_of_IsOver :
      (a : Agent) (i : Input)
      → IsOffline i
      → IsOver a.state.session a.clock.high_water_mark
      → let s = step x a i in
        All NeverUnlocks s.effects × IsOver s.agent.state.session s.agent.clock.high_water_mark
  unfolding step
  step_of_IsOver a (shutdown io) o h = ground arith
  step_of_IsOver a (event none instant io) o h = ground arith
  step_of_IsOver a (event (some ServerEvent.decommission) instant io) o h = ground arith
  step_of_IsOver a (event (some (ServerEvent.server_time t)) instant io) o h =
      ground (arith, resync_of_IsOver a.state.session a.clock t instant h)
  step_of_IsOver a (event (some (ServerEvent.session_state _ _)) instant io) o h = elim o [ ]
  step_of_IsOver a (tick reading io) o h =
      let (locks, over) = on_tick-LocksFirst a reading io h in
      let quiet = LocksFirst-NeverUnlocks (on_tick x a reading io).effects locks in
      ground (arith, quiet)

  -- Without a message about a session, an agent without one that has time left never unlocks the
  -- machine again, whatever the clocks read, whatever server times arrive and however long it runs.
  pub run_loop-NeverUnlocks :
      (a : Agent) (is : List Input)
      → IsOver a.state.session a.clock.high_water_mark
      → All IsOffline is
      → let s = run_loop x a is in
        All NeverUnlocks s.effects × IsOver s.agent.state.session s.agent.clock.high_water_mark
  unfolding run_loop
  run_loop-NeverUnlocks a [] h o = ground arith
  run_loop-NeverUnlocks a (i ∷ is) h (o, os) =
      let s = step x a i in
      let (quiet, over) = step_of_IsOver a i o h in
      ground (
        arith,
        Flow-cases s.flow,
        run_loop-NeverUnlocks s.agent is over os,
        All-append NeverUnlocks s.effects (run_loop x s.agent is).effects quiet,
      )
