-- ===== src/Agent/Decommissioned.antt =====
-- What a decommissioned agent does.
use taymna.Common.{◌≡◌, true, none, some, List, [], ◌∷◌, arith, All, All-append}
use taymna.External.{External}
use taymna.Client.{ServerEvent}
use taymna.Agent.{
  Effect, disable_usage, enable_usage, warn, command, save, Agent, Input, shutdown, event, tick,
}
use taymna.Agent.Rounds.{step}
use taymna.Agent.Loop.{run_loop}

-- Neither enforcement nor a warning, and every state that is saved is still decommissioned.
abbrev pub IsInert : Effect → Type 0
IsInert disable_usage = ⊥
IsInert enable_usage = ⊥
IsInert (warn _) = ⊥
IsInert (command _) = Unit {0}
IsInert (save state _) = state.decommissioned ≡ true

-- The flag of the loop and the one in the state agree.
abbrev pub Agrees : Agent → Type 0
Agrees a = a.decommissioned ≡ a.state.decommissioned

module _ (x : External) where
  step-IsInert :
      (a : Agent) (i : Input)
      → a.decommissioned ≡ true
      → Agrees a
      → let s = step x a i in
        All IsInert s.effects × (s.agent.decommissioned ≡ true) × (s.agent.state ≡ a.state)
  unfolding step
  step-IsInert a (shutdown io) d g = ground arith
  step-IsInert a (event none instant io) d g = ground arith
  step-IsInert a (event (some ServerEvent.decommission) instant io) d g = ground arith
  step-IsInert a (event (some e) instant io) d g = ground arith
  step-IsInert a (tick reading io) d g = ground arith

  -- Once the flag of the loop and that of the state are set, whatever messages arrive and however
  -- long it runs, the agent neither locks nor unlocks nor warns, and its state, with every state
  -- that it saves, stays decommissioned.
  pub run_loop-IsInert :
      (a : Agent) (is : List Input)
      → a.decommissioned ≡ true
      → Agrees a
      → let s = run_loop x a is in
        All IsInert s.effects × (s.agent.decommissioned ≡ true) × (s.agent.state ≡ a.state)
  unfolding run_loop
  run_loop-IsInert a [] d g = ground arith
  run_loop-IsInert a (i ∷ is) d g =
      let s = step x a i in
      let (quiet, still, same) = step-IsInert a i d g in
      let rest = run_loop-IsInert s.agent is still (ground arith) in
      ground (arith, rest, All-append IsInert s.effects (run_loop x s.agent is).effects quiet)
