-- ===== src/System/Lawful.antt =====
-- How the flag of the loop, the state on disk and the acknowledgements that wait go together.
pub mod Rounds
use taymna.Common.{
  ◌≡◌, refl, Bool, true, false, none, some, List, [], ◌∷◌, ◌++◌, map, arith, if◌then◌else◌, Option,
  DateTime, Instant,
}
use taymna.Storage
use taymna.Storage.{AgentState, Result, ok, err, Disk, SaveIo}
use taymna.Storage.Atomic.{RoundTrips, save_atomic}
use taymna.External.{External}
use taymna.Clock
use taymna.Clock.{Reading}
use taymna.Session.{apply_server_message, Desired, SessionSnapshot, allowed, blocked, advance}
use taymna.Warning.{WarningEffect, reconcile}
use taymna.Client.{ServerEvent}
use taymna.Client.Connection.{drain}
use taymna.Agent.{
  Effect, warn, Flow, Agent, Input, shutdown, event, tick, running, stopped, Step, enforce,
}
use taymna.Agent.Rounds.{
  idle, on_server_time, on_session_state, step, on_tick, before_save, persist, accept_decommission,
}
use taymna.Agent.Decommissioned.{Agrees}
use taymna.Agent.Durability.{decommissioned_on_disk}
use taymna.System.{seen, commands_of}
use taymna.System.Lifecycle.{Phase, managed, released, Life, stay, lock, unlock, release}

abbrev pub phase_of : Bool → Phase
phase_of true = released
phase_of false = managed

abbrev pub kept : Result (Unit {0}) → Bool → Bool → Bool
kept (ok _) new old = new
kept (err _) new old = old

module _ (x : External) where
  abbrev pub phase : Disk → Phase
  phase disk = phase_of (decommissioned_on_disk x disk)

  -- The flag of the loop, the flag of the state and what is on disk agree.
  abbrev pub IsExact : Agent → Type 0
  IsExact a = Agrees a × (a.decommissioned ≡ decommissioned_on_disk x a.disk)

  -- A round of the loop lives by the rules, asks for an acknowledgement only if the file says so,
  -- and never makes a released machine a managed one.
  abbrev pub IsLawful : Agent → Step → Type 0
  IsLawful a s =
      let before = decommissioned_on_disk x a.disk in
      let after = decommissioned_on_disk x s.agent.disk in
      (s.flow ≡ running → IsExact s.agent)
      × Life (phase_of before) (seen s.effects) (phase_of after)
      × (drain false (commands_of s.effects) ≡ true → after ≡ true)
      × (before ≡ true → after ≡ true)

  module _ (law : RoundTrips x.to_json x.from_json) where
    pub decommissioned_on_disk-save :
        (disk : Disk) (state : AgentState) (io : SaveIo)
        → let (disk', result) = Storage.save x.to_json disk state io in
          decommissioned_on_disk x disk'
          ≡ kept result state.decommissioned (decommissioned_on_disk x disk)
    unfolding decommissioned_on_disk
    decommissioned_on_disk-save disk state io =
        ground (arith, save_atomic x.to_json disk state io, law state)

    stay_at : (b c : Bool) → b ≡ c → Life (phase_of b) [] (phase_of c)
    stay_at true true e = stay released
    stay_at false false e = stay managed
    stay_at true false e = absurd (ground arith)
    stay_at false true e = absurd (ground arith)

    -- What a save leaves on disk is the old flag or that of the state, if that is different.
    pub persist-disk :
        (a : Agent) (io : SaveIo) (es more : List Effect) (f : Flow)
        → decommissioned_on_disk x a.disk ≡ a.state.decommissioned
        → decommissioned_on_disk x (persist x a io es more f).agent.disk ≡ a.state.decommissioned
    unfolding persist
    persist-disk a io es more f e = ground (arith, decommissioned_on_disk-save a.disk a.state io)

    pub persist-seen :
        (a : Agent) (io : SaveIo) (es : List Effect) (f : Flow)
        → (seen (persist x a io es [] f).effects ≡ seen es)
          × (commands_of (persist x a io es [] f).effects ≡ commands_of es)
    unfolding persist
    persist-seen a io [] f = ground arith
    persist-seen a io (e ∷ es) f = ground (arith, persist-seen a io es f)

    -- A round that others do not see.
    pub quiet-IsLawful :
        (a : Agent) (s : Step)
        → (s.flow ≡ running → IsExact s.agent)
        → seen s.effects ≡ []
        → commands_of s.effects ≡ []
        → decommissioned_on_disk x a.disk ≡ decommissioned_on_disk x s.agent.disk
        → IsLawful a s
    quiet-IsLawful a s exact p q e =
        (exact, rw p (stay_at _ _ e), rw q (λ f. ground arith), λ f. ground arith)

    pub if-IsLawful :
        (a : Agent) (b : Bool) (s t : Step)
        → (b ≡ true → IsLawful a s)
        → (b ≡ false → IsLawful a t)
        → IsLawful a (if b then s else t)
    if-IsLawful a true s t h k = h refl
    if-IsLawful a false s t h k = k refl

    pub idle-IsLawful : (a b : Agent) → IsExact b → a.disk ≡ b.disk → IsLawful a (idle b)
    idle-IsLawful a b h e = quiet-IsLawful a (idle b) (λ _. h) refl refl (rw e refl)

    pub persist-Agrees :
        (a : Agent) (io : SaveIo) (es more : List Effect) (f : Flow)
        → ((persist x a io es more f).agent.decommissioned ≡ a.decommissioned)
          × ((persist x a io es more f).agent.state ≡ a.state)
    unfolding persist
    persist-Agrees a io es more f = (refl, refl)

    -- A round that ends with a save, of a state with the flag that is on disk.
    pub persist-IsLawful :
        (a b : Agent) (io : SaveIo) (f : Flow)
        → IsExact b
        → a.disk ≡ b.disk
        → IsLawful a (persist x b io [] [] f)
    persist-IsLawful a b io f (g, d) e =
        let same = persist-disk b io [] [] f (ground arith) in
        let (p, q) = persist-seen b io [] f in
        quiet-IsLawful a (persist x b io [] [] f) (λ r. ground (arith, persist-Agrees b io [] [] f))
          p q (rw e (ground arith))
