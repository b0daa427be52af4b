-- ===== src/Platform/Enforcement.antt =====
-- agent/src/platform/mod.rs, `Enforcement`: what the loop of agent/src/main.rs asks of a platform to
-- lock and unlock the machine (docs/enforcement.md).
pub mod Instances
use mathlib.Core.List.{append-nil}
use taymna.Common.{◌≡◌, ◌↔◌, refl, Bool, true, false, List, [], ◌∷◌, ◌++◌, map, arith}
use taymna.Storage
use taymna.Storage.{AgentState, Result, ok, err, SaveIo}
use taymna.Clock
use taymna.Clock.{Reading}
use taymna.Session.{Desired, allowed, blocked, advance}
use taymna.Session.Enforcement.{IsLive, advance-allowed_iff}
use taymna.Warning.{WarningEffect}
use taymna.External.{External}
use taymna.Agent
use taymna.Agent.{Effect, warn, command, save, Agent, enforce, on_success}
use taymna.Agent.Rounds.{before_save, on_tick}

-- `Os` is what the system answers to one request, and `Call` what it is asked.
pub record Enforcement : Type 1 where
  pub Os : Type 0
  pub Call : Type 0
  pub disable_usage : Os → List Call
  pub enable_usage : Os → List Call
  pub enabled : (os : Os) → enable_usage os ≡ []

module _ (e : Enforcement) where
  open e use {Os, Call}

  -- What a round's effects ask of the system. A round makes at most one request.
  abbrev pub enforced : Os → List Effect → List Call
  enforced os [] = []
  enforced os (Agent.disable_usage ∷ es) = e.disable_usage os ++ enforced os es
  enforced os (Agent.enable_usage ∷ es) = e.enable_usage os ++ enforced os es
  enforced os (_ ∷ es) = enforced os es

  enforced_quiet :
      (os : Os) (ws : List WarningEffect) (state : AgentState) (result : Result (Unit {0}))
      → enforced os (map warn ws ++ save state result ∷ on_success result []) ≡ []
  enforced_quiet os [] state (ok _) = refl
  enforced_quiet os [] state (err _) = refl
  enforced_quiet os (w ∷ ws) state result = enforced_quiet os ws state result

  -- What is asked for a decision.
  abbrev asked : Os → Desired → List Call
  asked os blocked = e.disable_usage os
  asked os allowed = []

  asked_decides :
      (os : Os) (desired : Desired) (P : Type 0)
      → (desired ≡ allowed) ↔ P
      → (P → asked os desired ≡ []) × (¬ P → asked os desired ≡ e.disable_usage os)
  asked_decides os blocked P (_, is) = ((λ p. let bad = is p in absurd (ground arith)), λ n. refl)
  asked_decides os allowed P (can, _) = ((λ p. refl), λ n. absurd (n (can refl)))

  enforce_asks :
      (os : Os) (desired : Desired) (locked : Bool) (ws : List WarningEffect) (state : AgentState)
      (result : Result (Unit {0}))
      → enforced os
          (((enforce desired locked).0 ++ map warn ws) ++ save state result ∷ on_success result [])
        ≡ asked os desired
  unfolding enforce
  enforce_asks os blocked locked ws state result =
      rw (enforced_quiet os ws state result) (append-nil (e.disable_usage os))
  enforce_asks os allowed true ws state result =
      rw (e.enabled os) (enforced_quiet os ws state result)
  enforce_asks os allowed false ws state result = enforced_quiet os ws state result

  module _ (x : External) where
    on_tick_asks :
        (a : Agent) (reading : Reading) (io : SaveIo) (os : Os)
        → enforced os (on_tick x a reading io).effects
          ≡ asked os (advance a.state.session (Clock.now x.from_std a.clock reading).1).1
    unfolding on_tick
    on_tick_asks a reading io os =
        let now = (Clock.now x.from_std a.clock reading).1 in
        let (b, acts, ws) = before_save x a reading in
        enforce_asks os (advance a.state.session now).1 a.currently_blocked ws b.state
          (Storage.save x.to_json b.disk b.state io).1

    -- Whatever the platform, a tick of an agent that has not been decommissioned asks the system
    -- for what locks the machine if there is no active session whose deadline lies ahead of the
    -- trusted time, and for nothing if there is one, whether or not the machine was locked and
    -- however the save ends.
    pub on_tick-enforced :
        (a : Agent) (reading : Reading) (io : SaveIo) (os : Os)
        → let calls = enforced os (on_tick x a reading io).effects in
          let session = a.state.session in
          let now = (Clock.now x.from_std a.clock reading).1 in
          (IsLive session now → calls ≡ []) × (¬ IsLive session now → calls ≡ e.disable_usage os)
    on_tick-enforced a reading io os =
        let now = (Clock.now x.from_std a.clock reading).1 in
        rw (on_tick_asks a reading io os) (
          asked_decides os (advance a.state.session now).1 (IsLive a.state.session now)
            (advance-allowed_iff a.state.session now))
