-- ===== src/Agent/HighWaterMark.antt =====
-- The trusted high-water mark over a run, and on disk.
use taymna.Common.{
  ◌≡◌, ◌≤◌, refl, Bool, true, false, none, some, List, [], ◌∷◌, ◌++◌, map, arith, DateTime,
}
use taymna.Storage
use taymna.Storage.{AgentState, Result, ok, err, SaveIo}
use taymna.Clock
use taymna.Clock.{Reading}
use taymna.Clock.Rollback.{now_bounds}
use taymna.Session.{Desired, allowed, blocked, advance}
use taymna.Warning.{WarningEffect}
use taymna.External.{External}
use taymna.Client.{ServerEvent}
use taymna.Agent.{
  Effect, disable_usage, enable_usage, warn, command, save, Agent, Input, shutdown, event, tick,
  Step, enforce, on_success, Flow-cases,
}
use taymna.Agent.Rounds.{before_save, on_tick, step}
use taymna.Agent.Loop.{run_loop}

-- The marks of the states that are saved are in order, from `low` on, and at most `high`.
abbrev pub SavesUpTo : DateTime → DateTime → List Effect → Type 0
SavesUpTo low high [] = low ≤ high
SavesUpTo low high (save state _ ∷ es) =
    (low ≤ state.trusted_high_water_mark) × SavesUpTo state.trusted_high_water_mark high es
SavesUpTo low high (_ ∷ es) = SavesUpTo low high es

SavesUpTo-weaken :
    (low mid high : DateTime) (es : List Effect)
    → low ≤ mid
    → SavesUpTo mid high es
    → SavesUpTo low high es
SavesUpTo-weaken low mid high [] l h = omega arith
SavesUpTo-weaken low mid high (save state _ ∷ es) l (m, h) = (omega arith, h)
SavesUpTo-weaken low mid high (disable_usage ∷ es) l h = SavesUpTo-weaken low mid high es l h
SavesUpTo-weaken low mid high (enable_usage ∷ es) l h = SavesUpTo-weaken low mid high es l h
SavesUpTo-weaken low mid high (warn _ ∷ es) l h = SavesUpTo-weaken low mid high es l h
SavesUpTo-weaken low mid high (command _ ∷ es) l h = SavesUpTo-weaken low mid high es l h

SavesUpTo-append :
    (low mid high : DateTime) (es fs : List Effect)
    → SavesUpTo low mid es
    → SavesUpTo mid high fs
    → SavesUpTo low high (es ++ fs)
SavesUpTo-append low mid high [] fs h k = SavesUpTo-weaken low mid high fs h k
SavesUpTo-append low mid high (save state _ ∷ es) fs (l, h) k =
    (l, SavesUpTo-append state.trusted_high_water_mark mid high es fs h k)
SavesUpTo-append low mid high (disable_usage ∷ es) fs h k = SavesUpTo-append low mid high es fs h k
SavesUpTo-append low mid high (enable_usage ∷ es) fs h k = SavesUpTo-append low mid high es fs h k
SavesUpTo-append low mid high (warn _ ∷ es) fs h k = SavesUpTo-append low mid high es fs h k
SavesUpTo-append low mid high (command _ ∷ es) fs h k = SavesUpTo-append low mid high es fs h k

warnings_saves : (mark : DateTime) (ws : List WarningEffect) → SavesUpTo mark mark (map warn ws)
warnings_saves mark [] = omega arith
warnings_saves mark (w ∷ ws) = warnings_saves mark ws

enforce_saves :
    (desired : Desired) (locked : Bool) (mark : DateTime) (ws : List WarningEffect)
    → SavesUpTo mark mark ((enforce desired locked).0 ++ map warn ws)
unfolding enforce
enforce_saves blocked locked mark ws = warnings_saves mark ws
enforce_saves allowed true mark ws = warnings_saves mark ws
enforce_saves allowed false mark ws = warnings_saves mark ws

one_save :
    (low : DateTime) (state : AgentState) (result : Result (Unit {0}))
    → low ≤ state.trusted_high_water_mark
    → SavesUpTo low state.trusted_high_water_mark (save state result ∷ on_success result [])
one_save low state (ok _) h = (h, omega arith)
one_save low state (err _) h = (h, omega arith)

-- The mark in the state is that of the clock.
abbrev pub IsMarked : Agent → Type 0
IsMarked a = a.state.trusted_high_water_mark ≡ a.clock.high_water_mark

-- What a step or a run does to the mark.
abbrev pub Advances : Agent → Step → Type 0
Advances a s =
    IsMarked s.agent × SavesUpTo a.clock.high_water_mark s.agent.clock.high_water_mark s.effects

module _ (x : External) where
  on_tick-Advances :
      (a : Agent) (reading : Reading) (io : SaveIo) → Advances a (on_tick x a reading io)
  unfolding on_tick
  on_tick-Advances a reading io =
      let (after, _, mark, _) = now_bounds x.from_std a.clock reading in
      let now = (Clock.now x.from_std a.clock reading).1 in
      let (b, acts, ws) = before_save x a reading in
      let desired = (advance a.state.session now).1 in
      let result = (Storage.save x.to_json b.disk b.state io).1 in
      let low = a.clock.high_water_mark in
      (
        refl,
        SavesUpTo-append low low now (acts ++ map warn ws)
            (save b.state result ∷ on_success result [])
            (enforce_saves desired a.currently_blocked low ws) (one_save low b.state result after),
      )

  pub step-Advances : (a : Agent) (i : Input) → IsMarked a → Advances a (step x a i)
  unfolding step Clock.resync_from_server
  step-Advances a (shutdown io) h = ground arith
  step-Advances a (event none instant io) h = ground arith
  step-Advances a (event (some ServerEvent.decommission) instant io) h = ground arith
  step-Advances a (event (some (ServerEvent.session_state s t)) instant io) h = ground arith
  step-Advances a (event (some (ServerEvent.server_time t)) instant io) h = ground arith
  step-Advances a (tick reading io) h = ground (arith, on_tick-Advances a reading io)

  -- If the mark in the state is the clock's at the start, it is so after every run, and the
  -- trusted high-water mark never decreases: the marks of the states that are saved, in their
  -- order, lie between the clock's mark at the start and the one at the end, none below the one
  -- before it.
  pub run_loop-Advances : (a : Agent) (is : List Input) → IsMarked a → Advances a (run_loop x a is)
  unfolding run_loop
  run_loop-Advances a [] h = ground arith
  run_loop-Advances a (i ∷ is) h =
      let s = step x a i in
      let t = run_loop x s.agent is in
      let (marked, saves) = step-Advances a i h in
      let (last, more) = run_loop-Advances s.agent is marked in
      ground (
        arith,
        Flow-cases s.flow,
        SavesUpTo-append a.clock.high_water_mark s.agent.clock.high_water_mark
            t.agent.clock.high_water_mark s.effects t.effects saves more,
      )
