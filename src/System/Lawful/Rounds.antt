-- ===== src/System/Lawful/Rounds.antt =====
-- The rounds of the loop, one by one.
use taymna.Common.{
  ◌≡◌, refl, Bool, true, false, none, some, List, [], ◌∷◌, ◌++◌, map, arith, Option, DateTime,
  Instant,
}
use taymna.Storage.{AgentState, SaveIo}
use taymna.Storage.Atomic.{RoundTrips}
use taymna.External.{External}
use taymna.Clock
use taymna.Clock.{Reading}
use taymna.Session.{apply_server_message, Desired, SessionSnapshot, allowed, blocked, advance}
use taymna.Warning.{WarningEffect, reconcile}
use taymna.Client.{ServerEvent}
use taymna.Agent.{warn, Agent, Input, shutdown, event, tick, running, stopped, Step, enforce}
use taymna.Agent.Rounds.{
  on_server_time, on_session_state, step, on_tick, before_save, persist, accept_decommission,
}
use taymna.Agent.Durability.{decommissioned_on_disk}
use taymna.System.{seen, commands_of}
use taymna.System.Lifecycle.{managed, released, Life, stay, lock, unlock, release}
use taymna.System.Lawful.{
  phase_of, IsExact, IsLawful, decommissioned_on_disk-save, if-IsLawful, idle-IsLawful,
  persist-disk, persist-seen, persist-Agrees, persist-IsLawful,
}

seen-warn : (ws : List WarningEffect) → seen (map warn ws) ≡ []
seen-warn [] = refl
seen-warn (w ∷ ws) = seen-warn ws

commands_of-warn : (ws : List WarningEffect) → commands_of (map warn ws) ≡ []
commands_of-warn [] = refl
commands_of-warn (w ∷ ws) = commands_of-warn ws

enforce-seen :
    (desired : Desired) (was_blocked : Bool) (ws : List WarningEffect)
    → let es = (enforce desired was_blocked).0 ++ map warn ws in
      Life managed (seen es) managed × (commands_of es ≡ [])
unfolding enforce
enforce-seen blocked was_blocked ws = (rw (seen-warn ws) (lock (stay managed)), commands_of-warn ws)
enforce-seen allowed true ws = (rw (seen-warn ws) (unlock (stay managed)), commands_of-warn ws)
enforce-seen allowed false ws = (rw (seen-warn ws) (stay managed), commands_of-warn ws)

module _ (x : External) where
  module _ (law : RoundTrips x.to_json x.from_json) where
    on_session_state-IsLawful :
        (a : Agent) (s : Option SessionSnapshot) (t : DateTime) (instant : Instant) (io : SaveIo)
        → IsExact x a
        → IsLawful x a (on_session_state x a s t instant io)
    unfolding on_session_state
    on_session_state-IsLawful a s t instant io h =
        let (session, last, applied) =
          apply_server_message a.state.session a.state.last_applied_at s t in
        let clock = Clock.resync_from_server a.clock t instant in
        let state : AgentState = record a.state { session = session; last_applied_at = last } in
        let b : Agent = record a {
          clock = clock;
          state = record state { trusted_high_water_mark = clock.high_water_mark };
        } in
        if-IsLawful x law a applied _ _ (λ e. persist-IsLawful x law a b io running h refl)
          (λ e. idle-IsLawful x law a (record a { state = state }) h refl)

    release_at : (b c : Bool) → b ≡ false → Life (phase_of b) [] (phase_of c)
    release_at false true e = release (stay released)
    release_at false false e = stay managed
    release_at true c e = absurd (ground arith)

    accept_decommission-IsLawful :
        (a : Agent) (io : SaveIo)
        → IsExact x a
        → a.decommissioned ≡ false
        → IsLawful x a (accept_decommission x a io)
    unfolding accept_decommission
    accept_decommission-IsLawful a io (g, d) e =
        let state : AgentState = record a.state { decommissioned = true; session = none } in
        let saved = decommissioned_on_disk-save x law a.disk state io in
        let step = accept_decommission x a io in
        let after = decommissioned_on_disk x step.agent.disk in
        let quiet : seen step.effects ≡ [] = ground arith in
        (
          λ f. (ground arith, ground (arith, saved)),
          rw quiet (release_at _ after (ground arith)),
          λ f. ground (arith, saved),
          λ f. ground arith,
        )

    before_save-seen :
        (a : Agent) (reading : Reading)
        → let (b, acts, ws) = before_save x a reading in
          (b.decommissioned ≡ a.decommissioned)
          × (b.state.decommissioned ≡ a.state.decommissioned)
          × (b.disk ≡ a.disk)
          × Life managed (seen (acts ++ map warn ws)) managed
          × (commands_of (acts ++ map warn ws) ≡ [])
    unfolding before_save
    before_save-seen a reading =
        let (clock, now) = Clock.now x.from_std a.clock reading in
        let (session, desired) = advance a.state.session now in
        let ws = (reconcile x.num_seconds a.warnings session now).1 in
        let (life, silent) = enforce-seen desired a.currently_blocked ws in
        (refl, refl, refl, life, silent)

    -- A round of a managed machine that stays one.
    managed-IsLawful :
        (a : Agent) (s : Step)
        → (s.flow ≡ running → IsExact x s.agent)
        → decommissioned_on_disk x a.disk ≡ false
        → decommissioned_on_disk x s.agent.disk ≡ false
        → Life managed (seen s.effects) managed
        → commands_of s.effects ≡ []
        → IsLawful x a s
    managed-IsLawful a s exact d e life q =
        (exact, rw (d, e) life, rw q (λ f. ground arith), λ f. ground arith)

    on_tick-IsLawful :
        (a : Agent) (reading : Reading) (io : SaveIo)
        → IsExact x a
        → a.decommissioned ≡ false
        → IsLawful x a (on_tick x a reading io)
    unfolding on_tick
    on_tick-IsLawful a reading io (g, d) e =
        let (b, acts, ws) = before_save x a reading in
        let es = acts ++ map warn ws in
        let (p, q, k, life, silent) = before_save-seen a reading in
        let (r, c) = persist-seen x law b io es running in
        let same = persist-disk x law b io es [] running (rw k (ground arith)) in
        let kept = persist-Agrees x law b io es [] running in
        managed-IsLawful a (persist x b io es [] running) (λ f. ground (arith, kept)) (ground arith)
          (rw k (ground arith)) (rw r life) (rw c silent)

    pub step-IsLawful : (a : Agent) (i : Input) → IsExact x a → IsLawful x a (step x a i)
    unfolding step
    step-IsLawful a (shutdown io) h = persist-IsLawful x law a a io stopped h refl
    step-IsLawful a (event none instant io) h =
        if-IsLawful x law a a.events_closed _ _ (λ e. idle-IsLawful x law a a h refl)
          (λ e. idle-IsLawful x law a (record a { events_closed = true }) h refl)
    step-IsLawful a (event (some ServerEvent.decommission) instant io) h =
        if-IsLawful x law a a.events_closed _ _ (λ e. idle-IsLawful x law a a h refl)
          (λ e.
            if-IsLawful x law a a.decommissioned _ _ (λ f. idle-IsLawful x law a a h refl)
              (λ f. accept_decommission-IsLawful a io h f))
    step-IsLawful a (event (some (ServerEvent.session_state s t)) instant io) h =
        if-IsLawful x law a a.events_closed _ _ (λ e. idle-IsLawful x law a a h refl)
          (λ e.
            if-IsLawful x law a a.decommissioned _ _ (λ f. idle-IsLawful x law a a h refl)
              (λ f. on_session_state-IsLawful a s t instant io h))
    step-IsLawful a (event (some (ServerEvent.server_time t)) instant io) h =
        if-IsLawful x law a a.events_closed _ _ (λ e. idle-IsLawful x law a a h refl)
          (λ e.
            if-IsLawful x law a a.decommissioned _ _ (λ f. idle-IsLawful x law a a h refl)
              (λ f. idle-IsLawful x law a (on_server_time x a t instant).agent h refl))
    step-IsLawful a (tick reading io) h =
        if-IsLawful x law a a.decommissioned _ _ (λ e. idle-IsLawful x law a a h refl)
          (λ e. on_tick-IsLawful a reading io h e)
