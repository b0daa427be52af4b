-- ===== src/Agent/Loop.antt =====
-- agent/src/main.rs, `run`: how it begins, and its loop.
use taymna.Common.{
  true, false, Option, none, some, List, [], ◌∷◌, ◌++◌, DateTime, Instant, if◌then◌else◌,
}
use taymna.Clock
use taymna.Warning
use taymna.Client.{ack_decommission}
use taymna.Storage.{Credentials, AgentState, ErrorKind, Result, ok, err, Disk, load}
use taymna.External.{External}
use taymna.Agent.{Effect, command, Agent, Input, running, Step}
use taymna.Agent.Rounds.{idle, step}

-- How `run` begins: with the error of loading, inert (decommissioned, with no credential to
-- acknowledge with), with the error that the machine is not enrolled, or in the loop, behind the
-- acknowledgement that a decommissioned agent asks for.
pub data Start : Type 0 where
  load_failed : ErrorKind → Start
  inert not_enrolled : Start
  entered : Credentials → Agent → List Effect → Start

abbrev pub then_effects : List Effect → Step → Step
then_effects effects s = record s { effects = effects ++ s.effects }

module _ (x : External) where
  open x use {from_json}

  -- The loop, until it is left or the inputs are used up.
  unfoldable pub run_loop : Agent → List Input → Step
  run_loop a [] = idle a
  run_loop a (i ∷ is) =
      let s = step x a i in
      let rest = run_loop s.agent is in
      elim s.flow [ running ↦ then_effects s.effects rest | _ ↦ s ]

  abbrev pub entering : Disk → AgentState → Option Credentials → Instant → Start
  entering disk state none instant = if state.decommissioned then inert else not_enrolled
  entering disk state (some credentials) instant =
      entered credentials
        (record {
          disk = disk;
          state = state;
          clock = Clock.new state.trusted_high_water_mark instant;
          currently_blocked = true;
          warnings = Warning.new;
          decommissioned = state.decommissioned;
          events_closed = false;
        })
        (if state.decommissioned then command ack_decommission ∷ [] else [])

  abbrev pub starting : Disk → Result AgentState → Instant → Start
  starting disk (err e) instant = load_failed e
  starting disk (ok state) instant = entering disk state state.credentials instant

  -- `read` is the failure of reading the file, `now` the OS clock's reading and `instant` that of
  -- the monotonic clock.
  unfoldable pub start : Disk → Option ErrorKind → DateTime → Instant → Start
  unfolding load Clock.new Warning.new
  start disk read now instant = starting disk (load from_json disk read now) instant
