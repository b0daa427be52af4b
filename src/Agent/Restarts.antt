-- ===== src/Agent/Restarts.antt =====
-- The loop without news of a session, over the lives of the process: agent/src/main.rs, `run`, and
-- docs/offline-expiry.md.
use taymna.Common.{
  ◌≡◌, ◌⊎◌, refl, inl, inr, Option, none, some, List, [], ◌∷◌, ◌++◌, arith, DateTime, Instant, All,
  All-append, true,
}
use taymna.Common.Text.{Str}
use taymna.Storage
use taymna.Storage.{
  AgentState, ErrorKind, Credentials, Disk, Result, ok, err, SaveIo, load, default, not_found,
  invalid_data, other, loaded, read_to_string,
}
use taymna.Storage.Atomic.{RoundTrips, save_atomic}
use taymna.Clock
use taymna.Warning
use taymna.Clock.{Reading}
use taymna.External.{External}
use taymna.Client.{ServerEvent}
use taymna.Agent.{Effect, Agent, Input, shutdown, event, tick, Step, Flow-cases}
use taymna.Agent.Rounds.{step, on_tick, before_save, accept_decommission}
use taymna.Agent.Loop.{
  run_loop, Start, load_failed, inert, not_enrolled, entered, start, entering, starting,
}
use taymna.Agent.HighWaterMark.{IsMarked, step-Advances}
use taymna.Agent.Offline.{IsOffline, IsOver, NeverUnlocks, step_of_IsOver, run_loop-NeverUnlocks}

-- One lifetime of the process: what its start reads, and what its loop takes up until it ends, by
-- leaving the loop or at any round.
pub record Lifetime : Type 0 where
  pub read : Option ErrorKind
  pub now : DateTime
  pub instant : Instant
  pub inputs : List Input

-- A state without a session that has time left at its mark.
abbrev OverIn : Option AgentState → Type 0
OverIn none = Unit {0}
OverIn (some state) = IsOver state.session state.trusted_high_water_mark

abbrev parsed : (Str → Option AgentState) → Option Str → Option AgentState
parsed from_json none = none
parsed from_json (some contents) = from_json contents

module _ (x : External) where
  -- What a life does, and the files that it leaves.
  abbrev outlive : Disk → List Input → Start → List Effect × Disk
  outlive disk is (entered _ a effects) =
      let s = run_loop x a is in (effects ++ s.effects, s.agent.disk)
  outlive disk is _ = ([], disk)

  unfoldable pub live : Disk → Lifetime → List Effect × Disk
  unfolding start run_loop
  live disk life = outlive disk life.inputs (start x disk life.read life.now life.instant)

  unfoldable pub live_all : Disk → List Lifetime → List Effect
  unfolding live
  live_all disk [] = []
  live_all disk (life ∷ lives) =
      let (effects, left) = live disk life in effects ++ live_all left lives

  -- The file, if it holds a state, holds one without a session that has time left.
  abbrev pub IsOverOnDisk : Disk → Type 0
  IsOverOnDisk disk = OverIn (parsed x.from_json disk.state_json)

  -- What a round does to the file: nothing, or the state after the round is in it.
  abbrev Stores : Agent → Step → Type 0
  Stores a s =
      (s.agent.disk.state_json ≡ a.disk.state_json)
      ⊎ (s.agent.disk.state_json ≡ some (x.to_json s.agent.state))

  save_stores :
      (disk : Disk) (state : AgentState) (io : SaveIo)
      → let left = (Storage.save x.to_json disk state io).0 in
        (left.state_json ≡ disk.state_json) ⊎ (left.state_json ≡ some (x.to_json state))
  save_stores disk state io = ground (arith, save_atomic x.to_json disk state io)

  accept_decommission-Stores : (a : Agent) (io : SaveIo) → Stores a (accept_decommission x a io)
  unfolding accept_decommission
  accept_decommission-Stores a io =
      let state : AgentState = record a.state { decommissioned = true; session = none } in
      save_stores a.disk state io

  on_tick-Stores : (a : Agent) (reading : Reading) (io : SaveIo) → Stores a (on_tick x a reading io)
  unfolding on_tick
  on_tick-Stores a reading io = let b = (before_save x a reading).0 in save_stores b.disk b.state io

  step-Stores : (a : Agent) (i : Input) → IsOffline i → Stores a (step x a i)
  unfolding step
  step-Stores a (shutdown io) o = save_stores a.disk a.state io
  step-Stores a (event none instant io) o = ground arith
  step-Stores a (event (some ServerEvent.decommission) instant io) o =
      ground (arith, accept_decommission-Stores a io)
  step-Stores a (event (some (ServerEvent.server_time t)) instant io) o = ground arith
  step-Stores a (event (some (ServerEvent.session_state _ _)) instant io) o = elim o [ ]
  step-Stores a (tick reading io) o = ground (arith, on_tick-Stores a reading io)

  -- No session with time left: in the state, at the clock's mark, which is the state's, or on disk.
  abbrev pub Holds : Agent → Type 0
  Holds a = IsMarked a × IsOver a.state.session a.clock.high_water_mark × IsOverOnDisk a.disk

  abbrev StartHolds : Start → Type 0
  StartHolds (entered _ a effects) = Holds a × All NeverUnlocks effects
  StartHolds _ = Unit {0}

  entering_holds :
      (disk : Disk) (state : AgentState) (credentials : Option Credentials) (instant : Instant)
      → IsOver state.session state.trusted_high_water_mark
      → IsOverOnDisk disk
      → StartHolds (entering x disk state credentials instant)
  unfolding Clock.new Warning.new
  entering_holds disk state none instant h d = ground arith
  entering_holds disk state (some c) instant h d = ((refl, h, d), ground arith)

  parsed_holds :
      (disk : Disk) (found : Option AgentState) (instant : Instant)
      → OverIn found
      → IsOverOnDisk disk
      → StartHolds
          (starting x disk (elim found [ none ↦ err invalid_data | some state ↦ ok state ]) instant)
  parsed_holds disk none instant h d = tt
  parsed_holds disk (some state) instant h d =
      entering_holds disk state state.credentials instant h d

  loaded_holds :
      (disk : Disk) (contents : Option Str) (read : Option ErrorKind) (now : DateTime)
      (instant : Instant)
      → OverIn (parsed x.from_json contents)
      → IsOverOnDisk disk
      → StartHolds (starting x disk (loaded x.from_json (read_to_string contents read) now) instant)
  unfolding default
  loaded_holds disk none none now instant h d = tt
  loaded_holds disk (some contents) none now instant h d =
      parsed_holds disk (x.from_json contents) instant h d
  loaded_holds disk contents (some not_found) now instant h d = tt
  loaded_holds disk contents (some invalid_data) now instant h d = tt
  loaded_holds disk contents (some other) now instant h d = tt

  start_holds :
      (disk : Disk) (life : Lifetime)
      → IsOverOnDisk disk
      → StartHolds (start x disk life.read life.now life.instant)
  unfolding start load
  start_holds disk life d = loaded_holds disk disk.state_json life.read life.now life.instant d d

  module _ (law : RoundTrips x.to_json x.from_json) where
    -- What is stored of a state without a session that has time left.
    stored_over :
        (a : Agent) (s : Step)
        → Stores a s
        → IsOverOnDisk a.disk
        → IsOver s.agent.state.session s.agent.state.trusted_high_water_mark
        → IsOverOnDisk s.agent.disk
    stored_over a s (inl e) h k = rw (e) h
    stored_over a s (inr e) h k = rw (e, law s.agent.state) k

    step-Holds : (a : Agent) (i : Input) → IsOffline i → Holds a → Holds (step x a i).agent
    step-Holds a i o (m, h, d) =
        let s = step x a i in
        let over = (step_of_IsOver x a i o h).1 in
        let marked = (step-Advances x a i m).0 in
        (marked, over, stored_over a s (step-Stores a i o) d (rw (marked) over))

    run_loop-Holds :
        (a : Agent) (is : List Input)
        → All IsOffline is
        → Holds a
        → IsOverOnDisk (run_loop x a is).agent.disk
    unfolding run_loop
    run_loop-Holds a [] o (_, _, d) = d
    run_loop-Holds a (i ∷ is) (o, os) h =
        let s = step x a i in
        let holds = step-Holds a i o h in
        ground (arith, Flow-cases s.flow, run_loop-Holds s.agent is os holds)

    outlive-Holds :
        (disk : Disk) (is : List Input) (s : Start)
        → IsOverOnDisk disk
        → All IsOffline is
        → StartHolds s
        → All NeverUnlocks (outlive disk is s).0 × IsOverOnDisk (outlive disk is s).1
    outlive-Holds disk is (load_failed _) d o h = (tt, d)
    outlive-Holds disk is inert d o h = (tt, d)
    outlive-Holds disk is not_enrolled d o h = (tt, d)
    outlive-Holds disk is (entered _ a effects) d o (h, quiet) =
        let (_, over, _) = h in
        let never = (run_loop-NeverUnlocks x a is over o).0 in
        (
          All-append NeverUnlocks effects (run_loop x a is).effects quiet never,
          run_loop-Holds a is o h,
        )

    -- If a state parses back from its serialisation, and the one on disk, if the file holds
    -- one, has no session with time left at its mark, then however often the process is started again, whatever the clocks read,
    -- whatever of the files' reads and saves fails and wherever each life ends, the machine is
    -- never unlocked while no message about a session arrives.
    pub live_all-NeverUnlocks :
        (disk : Disk) (lives : List Lifetime)
        → IsOverOnDisk disk
        → All (λ life. All IsOffline life.inputs) lives
        → All NeverUnlocks (live_all disk lives)
    unfolding live_all
    live_all-NeverUnlocks disk [] d o = tt
    live_all-NeverUnlocks disk (life ∷ lives) d (o, os) =
        let begun = start x disk life.read life.now life.instant in
        let (never, left) = outlive-Holds disk life.inputs begun d o (start_holds disk life d) in
        let (effects, after) = live disk life in
        All-append NeverUnlocks effects (live_all after lives) never
          (live_all-NeverUnlocks after lives left os)
