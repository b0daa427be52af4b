-- ===== src/Agent/Acknowledge.antt =====
-- The acknowledgement of a decommission, and the state on disk when it is asked for.
use taymna.Common.{
  ◌≡◌, refl, Bool, true, false, none, some, List, [], ◌∷◌, ◌++◌, map, arith, inl, inr,
}
use taymna.Storage.{AgentState, Result, ok, err, Disk, SaveIo}
use taymna.External.{External}
use taymna.Clock.{Reading}
use taymna.Client.{ServerEvent, ack_decommission}
use taymna.Warning.{WarningEffect, reconcile}
use taymna.Session.{Desired, allowed, blocked, advance}
use taymna.Storage
use taymna.Clock
use taymna.Agent.{
  on_success, enforce, Flow-cases, Effect, disable_usage, enable_usage, warn, command, save, Agent,
  Input, shutdown, event, tick, running,
}
use taymna.Agent.Rounds.{step, on_tick, before_save}
use taymna.Agent.Decommissioned.{Agrees}
use taymna.Agent.Loop.{run_loop}

-- Whether the state on disk is a decommissioned one, after some effects.
abbrev pub disk_after : Bool → List Effect → Bool
disk_after flag [] = flag
disk_after flag (save state (ok _) ∷ es) = disk_after state.decommissioned es
disk_after flag (_ ∷ es) = disk_after flag es

-- Every acknowledgement is asked for while the state on disk is a decommissioned one.
abbrev pub AcksDurable : Bool → List Effect → Type 0
AcksDurable flag [] = Unit {0}
AcksDurable flag (save state (ok _) ∷ es) = AcksDurable state.decommissioned es
AcksDurable flag (command ack_decommission ∷ es) = (flag ≡ true) × AcksDurable flag es
AcksDurable flag (_ ∷ es) = AcksDurable flag es

AcksDurable-append :
    (flag : Bool) (es fs : List Effect)
    → AcksDurable flag es
    → AcksDurable (disk_after flag es) fs
    → AcksDurable flag (es ++ fs)
AcksDurable-append flag [] fs h k = k
AcksDurable-append flag (save state (ok _) ∷ es) fs h k =
    AcksDurable-append state.decommissioned es fs h k
AcksDurable-append flag (save state (err _) ∷ es) fs h k = AcksDurable-append flag es fs h k
AcksDurable-append flag (command ack_decommission ∷ es) fs (f, h) k =
    (f, AcksDurable-append flag es fs h k)
AcksDurable-append flag (warn _ ∷ es) fs h k = AcksDurable-append flag es fs h k
AcksDurable-append flag (disable_usage ∷ es) fs h k = AcksDurable-append flag es fs h k
AcksDurable-append flag (enable_usage ∷ es) fs h k = AcksDurable-append flag es fs h k

disk_after-append :
    (flag : Bool) (es fs : List Effect)
    → disk_after flag (es ++ fs) ≡ disk_after (disk_after flag es) fs
disk_after-append flag [] fs = refl
disk_after-append flag (save state (ok _) ∷ es) fs = disk_after-append state.decommissioned es fs
disk_after-append flag (save state (err _) ∷ es) fs = disk_after-append flag es fs
disk_after-append flag (command ack_decommission ∷ es) fs = disk_after-append flag es fs
disk_after-append flag (warn _ ∷ es) fs = disk_after-append flag es fs
disk_after-append flag (disable_usage ∷ es) fs = disk_after-append flag es fs
disk_after-append flag (enable_usage ∷ es) fs = disk_after-append flag es fs

-- Enforcement and warnings change nothing on disk.
warnings_durable :
    (flag : Bool) (ws : List WarningEffect)
    → AcksDurable flag (map warn ws) × (disk_after flag (map warn ws) ≡ flag)
warnings_durable flag [] = (tt, refl)
warnings_durable flag (w ∷ ws) = warnings_durable flag ws

enforce_durable :
    (flag : Bool) (desired : Desired) (was_blocked : Bool) (es : List Effect)
    → AcksDurable flag es × (disk_after flag es ≡ flag)
    → AcksDurable flag ((enforce desired was_blocked).0 ++ es)
      × (disk_after flag ((enforce desired was_blocked).0 ++ es) ≡ flag)
unfolding enforce
enforce_durable flag blocked was_blocked es h = h
enforce_durable flag allowed true es h = h
enforce_durable flag allowed false es h = h

-- The flag of the loop is that of the state, and is set only when the state on disk says so.
abbrev pub IsFaithful : Bool → Agent → Type 0
IsFaithful flag a = Agrees a × (a.decommissioned ≡ true → flag ≡ true)

module _ (x : External) where
  before_save_durable :
      (flag : Bool) (a : Agent) (reading : Reading)
      → let (b, acts, ws) = before_save x a reading in
        (b.decommissioned ≡ a.decommissioned)
        × (b.state.decommissioned ≡ a.state.decommissioned)
        × AcksDurable flag (acts ++ map warn ws)
        × (disk_after flag (acts ++ map warn ws) ≡ flag)
  unfolding before_save
  before_save_durable flag a reading =
      let (clock, now) = Clock.now x.from_std a.clock reading in
      let (session, desired) = advance a.state.session now in
      let ws = (reconcile x.num_seconds a.warnings session now).1 in
      let (quiet, kept) =
        enforce_durable flag desired a.currently_blocked (map warn ws) (warnings_durable flag ws) in
      (refl, refl, quiet, kept)

  tick-durable :
      (flag : Bool) (a : Agent) (reading : Reading) (io : SaveIo)
      → a.decommissioned ≡ false
      → IsFaithful flag a
      → let s = on_tick x a reading io in
        AcksDurable flag s.effects
        × (s.flow ≡ running → IsFaithful (disk_after flag s.effects) s.agent)
  unfolding on_tick
  tick-durable flag a reading io d h =
      let (b, acts, ws) = before_save x a reading in
      let es = acts ++ map warn ws in
      let (p, q, quiet, kept) = before_save_durable flag a reading in
      let result = (Storage.save x.to_json b.disk b.state io).1 in
      let rest = save b.state result ∷ on_success result [] in
      ground (arith, AcksDurable-append flag es rest quiet, disk_after-append flag es rest)

  step-durable :
      (flag : Bool) (a : Agent) (i : Input)
      → IsFaithful flag a
      → let s = step x a i in
        AcksDurable flag s.effects
        × (s.flow ≡ running → IsFaithful (disk_after flag s.effects) s.agent)
  unfolding step
  step-durable flag a (shutdown io) h = ground arith
  step-durable flag a (event none instant io) h = ground arith
  step-durable flag a (event (some ServerEvent.decommission) instant io) h = ground arith
  step-durable flag a (event (some (ServerEvent.session_state s t)) instant io) h = ground arith
  step-durable flag a (event (some (ServerEvent.server_time t)) instant io) h = ground arith
  step-durable flag a (tick reading io) h = ground (arith, tick-durable flag a reading io)

  -- If the flag of the loop is at the start that of the state, and set only if the state on disk
  -- is a decommissioned one, then whatever messages arrive, whichever saves fail and whenever it
  -- stops, the agent asks for the acknowledgement of a decommission only while the last state that
  -- it saved, or found on disk if it saved none, is a decommissioned one.
  pub run_loop-AcksDurable :
      (flag : Bool) (a : Agent) (is : List Input)
      → IsFaithful flag a
      → AcksDurable flag (run_loop x a is).effects
  unfolding run_loop
  run_loop-AcksDurable flag a [] h = tt
  run_loop-AcksDurable flag a (i ∷ is) h =
      let s = step x a i in
      let (now, later) = step-durable flag a i h in
      let rest = λ (r : s.flow ≡ running).
        AcksDurable-append flag s.effects (run_loop x s.agent is).effects now
          (run_loop-AcksDurable (disk_after flag s.effects) s.agent is (later r)) in
      elim (Flow-cases s.flow) [
        | inl r ↦ rw (r, run_loop) (rest r)
        | inr (inl r) ↦ rw (r, run_loop) now
        | inr (inr (e, r)) ↦ rw (r, run_loop) now
      ]
