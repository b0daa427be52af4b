-- ===== src/System/Refinement.antt =====
-- Runs of the whole agent, seen as lives of the machine.
use taymna.Common.{◌≡◌, true, List, All, arith, Bool, false, refl}
use taymna.Storage.{Disk}
use taymna.Storage.Atomic.{RoundTrips}
use taymna.Agent.Durability.{decommissioned_on_disk}
use taymna.System.{World, System, off, disk_of, Action, Run, rest, then_move}
use taymna.System.Lifecycle.{
  released, Life, stay, Life-append, Life-released, IsNoEnrollment, IsAcknowledgement,
}
use taymna.System.Lawful.{phase, phase_of}
use taymna.System.Invariant.{IsSound, Move-IsSound}

pub released_iff : (b : Bool) → phase_of b ≡ released → b ≡ true
released_iff true h = refl
released_iff false h = absurd (ground arith)

module _ (w : World) where
  open w use {external}

  module _ (law : RoundTrips external.to_json external.from_json) where
    Run-keeps :
        {s t : System} {actions : List Action}
        → Run w s actions t
        → IsSound w s
        → IsSound w t × Life (phase external (disk_of s)) actions (phase external (disk_of t))
    Run-keeps (rest s) sound = (sound, stay _)
    Run-keeps (then_move run move) sound =
        let (between, life) = Run-keeps run sound in
        let (after, more) = Move-IsSound w law move between in (after, Life-append life more)

    -- If a state parses back from its serialisation, then every run of the whole agent on a machine,
    -- from any files, through any starts, crashes, failing calls, lost connections and enrollments
    -- while it is stopped that do not find a file that is no text, and in whatever order its two tasks take their turns, is a life of the
    -- abstract machine: it locks and unlocks only while managed, acknowledges only while released,
    -- and becomes managed again only by an enrollment that succeeds; the phase is released exactly
    -- when the file says that the machine is decommissioned.
    pub Run-Life :
        (disk : Disk) (t : System) (actions : List Action)
        → Run w (off disk) actions t
        → Life (phase external disk) actions (phase external (disk_of t))
    Run-Life disk t actions run = (Run-keeps run tt).1

    -- While the loop of a process runs, in whatever state a run from any files has led to, its flag,
    -- that of its state and the file agree; and while an acknowledgement is to be sent, by the
    -- connection's flag or by a command in the channel, the file says that the machine is
    -- decommissioned. The conditions are that a state parses back from its serialisation
    -- and that no enrollment finds a file that is no text.
    pub Run-IsSound :
        (disk : Disk) (t : System) (actions : List Action)
        → Run w (off disk) actions t
        → IsSound w t
    Run-IsSound disk t actions run = (Run-keeps run tt).0

    -- If a state parses back from its serialisation and the file says that the machine is
    -- decommissioned, then in every run without a successful enrollment the machine is never locked
    -- or unlocked, across any starts and crashes, if no
    -- enrollment that fails finds a file that is no text: others see at most acknowledgements, and the file
    -- goes on saying so.
    pub Run-released :
        (disk : Disk) (t : System) (actions : List Action)
        → decommissioned_on_disk external disk ≡ true
        → Run w (off disk) actions t
        → All IsNoEnrollment actions
        → All IsAcknowledgement actions × (decommissioned_on_disk external (disk_of t) ≡ true)
    Run-released disk t actions d run h =
        let life = Run-Life disk t actions run in
        let (quiet, same) = Life-released (rw d at life) h in (quiet, released_iff _ same)
