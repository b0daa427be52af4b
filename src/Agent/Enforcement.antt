-- ===== src/Agent/Enforcement.antt =====
-- What the rounds of the loop do to the machine: locked by `disable_usage`, unlocked by
-- `enable_usage`.
use taymna.Common.{
  ◌≡◌, ◌↔◌, ◌∙◌, sym, refl, Bool, true, false, none, some, List, [], ◌∷◌, ◌++◌, map, arith,
}
use taymna.Storage
use taymna.Storage.{AgentState, Result, ok, err, SaveIo}
use taymna.Clock
use taymna.Clock.{Reading}
use taymna.Session.{Desired, allowed, blocked, advance}
use taymna.Session.Enforcement.{IsLive, advance-allowed_iff}
use taymna.Warning.{WarningEffect, reconcile}
use taymna.External.{External}
use taymna.Client.{ServerEvent}
use taymna.Agent.{
  Effect, disable_usage, enable_usage, warn, command, save, Agent, Input, shutdown, event, tick,
  enforce, on_success, Flow-cases,
}
use taymna.Agent.Rounds.{before_save, on_tick, step}
use taymna.Agent.Loop.{run_loop}

-- Whether the machine is locked after some effects, if it was `locked` before them.
abbrev pub locked_after : Bool → List Effect → Bool
locked_after locked [] = locked
locked_after locked (disable_usage ∷ es) = locked_after true es
locked_after locked (enable_usage ∷ es) = locked_after false es
locked_after locked (_ ∷ es) = locked_after locked es

-- The machine is unlocked only while it is locked.
abbrev pub UnlocksLocked : Bool → List Effect → Type 0
UnlocksLocked locked [] = Unit {0}
UnlocksLocked locked (disable_usage ∷ es) = UnlocksLocked true es
UnlocksLocked locked (enable_usage ∷ es) = (locked ≡ true) × UnlocksLocked false es
UnlocksLocked locked (_ ∷ es) = UnlocksLocked locked es

locked_after-append :
    (locked : Bool) (es fs : List Effect)
    → locked_after locked (es ++ fs) ≡ locked_after (locked_after locked es) fs
locked_after-append locked [] fs = refl
locked_after-append locked (disable_usage ∷ es) fs = locked_after-append true es fs
locked_after-append locked (enable_usage ∷ es) fs = locked_after-append false es fs
locked_after-append locked (warn _ ∷ es) fs = locked_after-append locked es fs
locked_after-append locked (command _ ∷ es) fs = locked_after-append locked es fs
locked_after-append locked (save _ _ ∷ es) fs = locked_after-append locked es fs

UnlocksLocked-append :
    (locked : Bool) (es fs : List Effect)
    → UnlocksLocked locked es
    → UnlocksLocked (locked_after locked es) fs
    → UnlocksLocked locked (es ++ fs)
UnlocksLocked-append locked [] fs h k = k
UnlocksLocked-append locked (disable_usage ∷ es) fs h k = UnlocksLocked-append true es fs h k
UnlocksLocked-append locked (enable_usage ∷ es) fs (e, h) k =
    (e, UnlocksLocked-append false es fs h k)
UnlocksLocked-append locked (warn _ ∷ es) fs h k = UnlocksLocked-append locked es fs h k
UnlocksLocked-append locked (command _ ∷ es) fs h k = UnlocksLocked-append locked es fs h k
UnlocksLocked-append locked (save _ _ ∷ es) fs h k = UnlocksLocked-append locked es fs h k

-- Warnings neither lock nor unlock.
warnings_neutral :
    (locked : Bool) (ws : List WarningEffect)
    → (locked_after locked (map warn ws) ≡ locked) × UnlocksLocked locked (map warn ws)
warnings_neutral locked [] = (refl, tt)
warnings_neutral locked (w ∷ ws) = warnings_neutral locked ws

saves_neutral :
    (locked : Bool) (state : AgentState) (result : Result (Unit {0}))
    → let es = save state result ∷ on_success result [] in
      (locked_after locked es ≡ locked) × UnlocksLocked locked es
saves_neutral locked state (ok _) = (refl, tt)
saves_neutral locked state (err _) = (refl, tt)

enforce_locks :
    (desired : Desired) (locked : Bool)
    → let (acts, flag) = enforce desired locked in
      (locked_after locked acts ≡ flag)
      × UnlocksLocked locked acts
      × ((flag ≡ false) ↔ (desired ≡ allowed))
unfolding enforce
enforce_locks blocked locked = ground arith
enforce_locks allowed true = ground arith
enforce_locks allowed false = ground arith

module _ (x : External) where
  before_save_locks :
      (a : Agent) (reading : Reading)
      → let (b, acts, ws) = before_save x a reading in
        let es = acts ++ map warn ws in
        (locked_after a.currently_blocked es ≡ b.currently_blocked)
        × UnlocksLocked a.currently_blocked es
        × ((b.currently_blocked ≡ false)
            ↔ IsLive a.state.session (Clock.now x.from_std a.clock reading).1)
  unfolding before_save
  before_save_locks a reading =
      let now = (Clock.now x.from_std a.clock reading).1 in
      let desired = (advance a.state.session now).1 in
      let ws = (reconcile x.num_seconds a.warnings (advance a.state.session now).0 now).1 in
      let acts = (enforce desired a.currently_blocked).0 in
      let flag = (enforce desired a.currently_blocked).1 in
      let (after, unlocks, agree) = enforce_locks desired a.currently_blocked in
      let live = advance-allowed_iff a.state.session now in
      let (neutral, quiet) = warnings_neutral (locked_after a.currently_blocked acts) ws in
      (
        locked_after-append a.currently_blocked acts (map warn ws) ∙ neutral ∙ after,
        UnlocksLocked-append a.currently_blocked acts (map warn ws) unlocks quiet,
        (λ h. live.0 (agree.0 h), λ h. agree.1 (live.1 h)),
      )

  on_tick_locks :
      (a : Agent) (reading : Reading) (io : SaveIo)
      → let s = on_tick x a reading io in
        (locked_after a.currently_blocked s.effects ≡ s.agent.currently_blocked)
        × UnlocksLocked a.currently_blocked s.effects
        × ((s.agent.currently_blocked ≡ false)
            ↔ IsLive a.state.session (Clock.now x.from_std a.clock reading).1)
  unfolding on_tick
  on_tick_locks a reading io =
      let (b, acts, ws) = before_save x a reading in
      let locked = a.currently_blocked in
      let es = acts ++ map warn ws in
      let (after, unlocks, live) = before_save_locks a reading in
      let result = (Storage.save x.to_json b.disk b.state io).1 in
      let (same, quiet) = saves_neutral (locked_after locked es) b.state result in
      (
        locked_after-append locked es (save b.state result ∷ on_success result []) ∙ same ∙ after,
        UnlocksLocked-append locked es (save b.state result ∷ on_success result []) unlocks quiet,
        live,
      )

  -- After a tick of an agent that has not been decommissioned, if `currently_blocked` said before
  -- it whether the machine was locked, the machine is unlocked exactly when there is an active
  -- session whose deadline lies ahead of the trusted time, whether or not the save of that tick
  -- succeeds.
  pub on_tick_locks_iff :
      (a : Agent) (reading : Reading) (io : SaveIo)
      → (locked_after a.currently_blocked (on_tick x a reading io).effects ≡ false)
        ↔ IsLive a.state.session (Clock.now x.from_std a.clock reading).1
  unfolding on_tick
  on_tick_locks_iff a reading io =
      let (after, _, live) = on_tick_locks a reading io in
      (λ h. live.0 (sym after ∙ h), λ h. after ∙ live.1 h)

  step_locks :
      (a : Agent) (i : Input)
      → let s = step x a i in
        (locked_after a.currently_blocked s.effects ≡ s.agent.currently_blocked)
        × UnlocksLocked a.currently_blocked s.effects
  unfolding step
  step_locks a (shutdown io) = ground arith
  step_locks a (event none instant io) = ground arith
  step_locks a (event (some ServerEvent.decommission) instant io) = ground arith
  step_locks a (event (some (ServerEvent.session_state s t)) instant io) = ground arith
  step_locks a (event (some (ServerEvent.server_time t)) instant io) = ground arith
  step_locks a (tick reading io) = ground (arith, on_tick_locks a reading io)

  -- In every run, `currently_blocked` goes on saying whether the machine is locked, if it did so
  -- at the start, and the machine is unlocked only when it is locked.
  pub run_loop-UnlocksLocked :
      (a : Agent) (is : List Input)
      → let s = run_loop x a is in
        (locked_after a.currently_blocked s.effects ≡ s.agent.currently_blocked)
        × UnlocksLocked a.currently_blocked s.effects
  unfolding run_loop
  run_loop-UnlocksLocked a [] = ground arith
  run_loop-UnlocksLocked a (i ∷ is) =
      let s = step x a i in
      let locked = a.currently_blocked in
      let es = (run_loop x s.agent is).effects in
      ground (
        arith,
        step_locks a i,
        run_loop-UnlocksLocked s.agent is,
        Flow-cases s.flow,
        locked_after-append locked s.effects es,
        UnlocksLocked-append locked s.effects es,
      )
