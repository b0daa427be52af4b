-- ===== src/UnitTests/Decommission.antt =====
-- agent/src/main.rs, `mod tests`.
use taymna.Common.{◌≡◌, true, none, List, [], ◌∷◌, arith, DateTime}
use taymna.Warning.{dismiss_final_warning}
use taymna.Client.{ack_decommission}
use taymna.Storage
use taymna.Storage.{AgentState, Result, ok, Disk, written, SaveIo, load}
use taymna.Storage.Atomic.{RoundTrips}
use taymna.External.{External}
use taymna.Agent.{Agent, Effect, warn, command, save}
use taymna.Agent.Rounds.{accept_decommission, persist}

abbrev fine : SaveIo
fine = record { write = written; harden = none; rename = none }

module _ (x : External) where
  -- The effects, the state in memory, and what loading then gives. The state has been saved before.
  persists_before_acking : Agent → DateTime → List Effect × AgentState × Result AgentState
  unfolding accept_decommission load Storage.save
  persists_before_acking a now =
      let s =
        accept_decommission x (record a { disk = (Storage.save x.to_json a.disk a.state fine).0 })
          fine in
      (s.effects, s.agent.state, load x.from_json s.agent.disk none now)

  persists_before_acking_lem :
      (law : RoundTrips x.to_json x.from_json) (a : Agent) (now : DateTime)
      → let terminal : AgentState = record a.state { decommissioned = true; session = none } in
        persists_before_acking a now ≡ (
          save terminal (ok tt) ∷ warn dismiss_final_warning ∷ command ack_decommission ∷ [],
          terminal,
          ok terminal,
        )
  unfolding persists_before_acking persist
  persists_before_acking_lem law a now =
      ground (arith, law (record a.state { decommissioned = true; session = none }))
