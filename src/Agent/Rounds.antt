-- ===== src/Agent/Rounds.antt =====
-- agent/src/main.rs, `accept_decommission` and the branches of the `select!` in `run`.
use taymna.Common.{
  true, Option, none, some, List, [], ◌∷◌, ◌++◌, map, DateTime, Instant, if◌then◌else◌,
}
use taymna.Session.{SessionSnapshot, apply_server_message, advance}
use taymna.Clock
use taymna.Clock.{Reading}
use taymna.Warning.{WarningEffect, dismiss_final_warning, reconcile}
use taymna.Client.{ack_decommission, ServerEvent}
use taymna.Storage
use taymna.Storage.{AgentState, SaveIo}
use taymna.External.{External}
use taymna.Agent.{
  Effect, warn, command, save, Agent, Input, shutdown, event, tick, Flow, running, stopped, Step,
  after_save, on_success, flag_after, enforce,
}

abbrev pub idle : Agent → Step
idle a = record { agent = a; effects = []; flow = running }

module _ (x : External) where
  open x use {from_std, num_seconds, to_json, from_json}

  -- `store.save(&state)?` behind `effects`, where `more` and the flow follow a success.
  unfoldable pub persist : Agent → SaveIo → List Effect → List Effect → Flow → Step
  unfolding Storage.save
  persist a io effects more flow =
      let (disk, result) = Storage.save to_json a.disk a.state io in
      record {
        agent = record a { disk = disk };
        effects = effects ++ save a.state result ∷ on_success result more;
        flow = after_save result flow;
      }

  -- `accept_decommission`, and the flag of `run` that is set behind it if it succeeds.
  unfoldable pub accept_decommission : Agent → SaveIo → Step
  unfolding persist
  accept_decommission a io =
      let state : AgentState = record a.state { decommissioned = true; session = none } in
      let step =
        persist (record a { state = state }) io []
          (warn dismiss_final_warning ∷ command ack_decommission ∷ []) running in
      record step {
        agent = record step.agent { decommissioned = flag_after step.flow a.decommissioned };
      }

  -- The `session_state` branch.
  unfoldable pub on_session_state :
      Agent → Option SessionSnapshot → DateTime → Instant → SaveIo → Step
  unfolding apply_server_message Clock.resync_from_server persist
  on_session_state a session message_time instant io =
      let (session', last, applied) =
        apply_server_message a.state.session a.state.last_applied_at session message_time in
      let state : AgentState = record a.state { session = session'; last_applied_at = last } in
      if applied
      then (let clock = Clock.resync_from_server a.clock message_time instant in
          persist
            (record a {
              clock = clock;
              state = record state { trusted_high_water_mark = clock.high_water_mark };
            })
            io [] [] running)
      else idle (record a { state = state })

  unfoldable pub on_server_time : Agent → DateTime → Instant → Step
  unfolding Clock.resync_from_server
  on_server_time a time instant =
      let clock = Clock.resync_from_server a.clock time instant in
      idle (record a {
        clock = clock;
        state = record a.state { trusted_high_water_mark = clock.high_water_mark };
      })

  unfoldable pub on_event : Agent → Option ServerEvent → Instant → SaveIo → Step
  unfolding accept_decommission on_session_state on_server_time
  on_event a none instant io = idle (record a { events_closed = true })
  on_event a (some ServerEvent.decommission) instant io =
      if a.decommissioned then idle a else accept_decommission a io
  on_event a (some (ServerEvent.session_state session time)) instant io =
      if a.decommissioned then idle a else on_session_state a session time instant io
  on_event a (some (ServerEvent.server_time time)) instant io =
      if a.decommissioned then idle a else on_server_time a time instant

  -- The tick of an agent that has not been decommissioned, up to its save: the variables, the
  -- enforcement calls and the warnings.
  unfoldable pub before_save : Agent → Reading → Agent × List Effect × List WarningEffect
  unfolding Clock.now advance enforce reconcile
  before_save a reading =
      let (clock, trusted_now) = Clock.now from_std a.clock reading in
      let (session, desired) = advance a.state.session trusted_now in
      let (acts, currently_blocked) = enforce desired a.currently_blocked in
      let (warnings, effects) = reconcile num_seconds a.warnings session trusted_now in
      (
        record a {
          clock = clock;
          state = record a.state {
            trusted_high_water_mark = clock.high_water_mark;
            session = session;
          };
          currently_blocked = currently_blocked;
          warnings = warnings;
        },
        acts,
        effects,
      )

  unfoldable pub on_tick : Agent → Reading → SaveIo → Step
  unfolding before_save persist
  on_tick a reading io =
      let (b, acts, effects) = before_save a reading in
      persist b io (acts ++ map warn effects) [] running

  -- One round of the loop. The events branch is disabled once the channel has ended.
  unfoldable pub step : Agent → Input → Step
  unfolding on_event on_tick persist
  step a (shutdown io) = persist a io [] [] stopped
  step a (event e instant io) = if a.events_closed then idle a else on_event a e instant io
  step a (tick reading io) = if a.decommissioned then idle a else on_tick a reading io
