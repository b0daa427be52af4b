-- ===== src/Agent/Durability.antt =====
-- What is on disk once the decommission has been acknowledged, and what a restart makes of it.
use taymna.Common.{
  ◌≡◌, ◌⊎◌, refl, Bool, true, false, none, some, List, [], ◌∷◌, arith, Instant, DateTime, inl, inr,
  Option-cases,
}
use taymna.Common.Text.{Str}
use taymna.Storage.{AgentState, Credentials, Result, ok, err, Disk, SaveIo, load}
use taymna.Clock
use taymna.Clock.{Reading}
use taymna.Warning
use taymna.Storage
use taymna.Storage.Atomic.{RoundTrips, save_atomic}
use taymna.External.{External}
use taymna.Client.{ServerEvent, ack_decommission}
use taymna.Agent.{command, Agent, Input, shutdown, event, tick, running, Step, Flow-cases}
use taymna.Agent.Rounds.{accept_decommission, step, on_tick}
use taymna.Agent.Decommissioned.{Agrees}
use taymna.Agent.Loop.{run_loop, inert, entered, start}

module _ (x : External) where
  -- The flag in the file, if it parses.
  unfoldable pub decommissioned_on_disk : Disk → Bool
  decommissioned_on_disk disk = elim disk.state_json [
    | none ↦ false
    | some contents ↦ elim (x.from_json contents) [
      | none ↦ false
      | some state ↦ state.decommissioned
    ]
  ]

  on_disk :
      (disk : Disk)
      → decommissioned_on_disk disk ≡ true
      → (contents : Str) × (state : AgentState) × (disk.state_json ≡ some contents)
        × (x.from_json contents ≡ some state)
        × (state.decommissioned ≡ true)
  unfolding decommissioned_on_disk
  on_disk disk h = elim (Option-cases disk.state_json) [
    | inl n ↦ absurd (ground arith)
    | inr (contents, e) ↦ elim (Option-cases (x.from_json contents)) [
      | inl n ↦ absurd (ground arith)
      | inr (state, p) ↦ (contents, state, e, p, ground arith)
    ]
  ]

  -- An agent that finds a decommissioned state on disk, and can read the file, does not enforce:
  -- it is inert, or it enters the loop as a decommissioned agent whose one effect so far is to ask
  -- for the acknowledgement again.
  pub start_decommissioned :
      (disk : Disk) (now : DateTime) (instant : Instant)
      → decommissioned_on_disk disk ≡ true
      → (start x disk none now instant ≡ inert)
        ⊎ ((c : Credentials) × (a : Agent) × (start x disk none now instant
              ≡ entered c a (command ack_decommission ∷ []))
            × (a.decommissioned ≡ true)
            × Agrees a)
  unfolding start decommissioned_on_disk
  start_decommissioned disk now instant h =
      let (contents, state, e, p, d) = on_disk disk h in
      let a : Agent = record {
        disk = disk;
        state = state;
        clock = Clock.new state.trusted_high_water_mark instant;
        currently_blocked = true;
        warnings = Warning.new;
        decommissioned = state.decommissioned;
        events_closed = false;
      } in
      elim (Option-cases state.credentials) [
        | inl n ↦ inl (ground arith)
        | inr (c, k) ↦ inr (c, a, ground arith, d, refl)
      ]

  save_on_disk :
      RoundTrips x.to_json x.from_json
      → (disk : Disk) (state : AgentState) (io : SaveIo) → state.decommissioned ≡ true
      → (decommissioned_on_disk disk ≡ true) ⊎ ((Storage.save x.to_json disk state io).1 ≡ ok tt)
      → decommissioned_on_disk (Storage.save x.to_json disk state io).0 ≡ true
  unfolding decommissioned_on_disk
  save_on_disk law disk state io d h =
      ground (arith, save_atomic x.to_json disk state io, law state)

  -- The flag of the loop is that of the state, and is set only when the file says so.
  abbrev pub IsDurable : Agent → Type 0
  IsDurable a = Agrees a × (a.decommissioned ≡ true → decommissioned_on_disk a.disk ≡ true)

  -- What a round leaves: the file says so if the flag is set, and the flags agree if it goes on.
  abbrev Leaves : Step → Type 0
  Leaves s =
      (s.agent.decommissioned ≡ true → decommissioned_on_disk s.agent.disk ≡ true)
      × (s.flow ≡ running → Agrees s.agent)

  module _ (law : RoundTrips x.to_json x.from_json) where
    accept_decommission-Leaves :
        (a : Agent) (io : SaveIo) → a.decommissioned ≡ false → Leaves (accept_decommission x a io)
    unfolding accept_decommission
    accept_decommission-Leaves a io e =
        let state : AgentState = record a.state { decommissioned = true; session = none } in
        ground (arith, save_on_disk law a.disk state io)

    on_tick_flag :
        (a : Agent) (reading : Reading) (io : SaveIo)
        → (on_tick x a reading io).agent.decommissioned ≡ a.decommissioned
    unfolding on_tick
    on_tick_flag a reading io = refl

    step-Leaves : (a : Agent) (i : Input) → IsDurable a → Leaves (step x a i)
    unfolding step
    step-Leaves a (shutdown io) h = ground (arith, save_on_disk law a.disk a.state io)
    step-Leaves a (event none instant io) h = ground arith
    step-Leaves a (event (some ServerEvent.decommission) instant io) h =
        ground (arith, accept_decommission-Leaves a io)
    step-Leaves a (event (some (ServerEvent.session_state s t)) instant io) h = ground arith
    step-Leaves a (event (some (ServerEvent.server_time t)) instant io) h = ground arith
    step-Leaves a (tick reading io) h = ground (arith, on_tick_flag a reading io)

    -- If a state parses back from its serialisation, and the flag of the loop is at the start that
    -- of the state and set only if the file says so, then whenever the loop is left with the flag
    -- set, the file says that the machine is decommissioned, however the loop is left and
    -- whichever saves fail.
    pub run_loop_on_disk :
        (a : Agent) (is : List Input)
        → IsDurable a
        → (run_loop x a is).agent.decommissioned ≡ true
        → decommissioned_on_disk (run_loop x a is).agent.disk ≡ true
    unfolding run_loop
    run_loop_on_disk a [] h e = ground arith
    run_loop_on_disk a (i ∷ is) h e =
        let s = step x a i in
        let l = step-Leaves a i h in ground (arith, Flow-cases s.flow, run_loop_on_disk s.agent is)
