-- ===== src/Deployment/Removal.antt =====
-- When the server forgets a machine, and what its agent has done by then (docs/enrollment.md).
use taymna.Common.{◌≡◌, inl, inr, Bool, true, none, List, All, All-append, All-split, arith}
use taymna.Common.Text.{Str}
use taymna.Storage.{Disk}
use taymna.Storage.Atomic.{RoundTrips}
use taymna.Server.Machines.{Operation}
use taymna.System.{World, off, Action}
use taymna.System.Lifecycle.{IsNoEnrollment, IsAcknowledgement}
use taymna.System.Invariant.{IsSound}
use taymna.Deployment.Covered.{is_usable, Released, IsCovered, Step-IsCovered, Step-Released}
use taymna.Deployment.{Deployment, IsNoRevocation, Course, begin, then_step}

module _ (w : World) (verify : Str → Str → Bool) where
  open w use {external}

  module _ (law : RoundTrips external.to_json external.from_json) where
    Course-IsCovered :
        {d : Deployment} {actions : List Action} {os : List Operation} {e : Deployment}
        → Course w verify d actions os e
        → All IsNoEnrollment actions
        → All IsNoRevocation os
        → IsCovered w d
        → IsCovered w e
    Course-IsCovered (begin d) h k covered = covered
    Course-IsCovered (then_step {before} {now} {earlier} {at_once} course step) h k covered =
        let (h1, h2) = All-split IsNoEnrollment before now h in
        let (k1, k2) = All-split IsNoRevocation earlier at_once k in
        Step-IsCovered w law step h2 k2 (Course-IsCovered course h1 k1 covered)

    Course-Released :
        {d : Deployment} {actions : List Action} {os : List Operation} {e : Deployment}
        → Course w verify d actions os e
        → All IsNoEnrollment actions
        → IsSound w d.agent
        → Released w d
        → IsSound w e.agent × Released w e × All IsAcknowledgement actions
    Course-Released (begin d) h sound r = (sound, r, tt)
    Course-Released (then_step {before} {now} course step) h sound r =
        let (h1, h2) = All-split IsNoEnrollment before now h in
        let (between, kept, quiet) = Course-Released course h1 sound r in
        let (after, done, still) = Step-Released w law step h2 between kept in
        (after, done, All-append IsAcknowledgement before now quiet still)

    -- If a state parses back from its serialisation, then from any files of an agent that is
    -- stopped, a machine of the server with a usable credential and no acknowledgement on the way,
    -- the server forgets the machine only when its agent has let go of it: once the row is gone the file says that the
    -- machine is decommissioned, and whatever happens later, the agent locks and unlocks nothing
    -- and acknowledges at most. The requests, each taken as a whole, the agent's moves, starts and
    -- crashes, and the arrival and the loss of acknowledgements come in any order; the conditions
    -- are that up to then no request revokes the credential, that no enrollment of the agent
    -- succeeds, and that none that fails finds a file that is no text.
    pub Course-no_orphan :
        (d e f : Deployment) (actions later : List Action) (os others : List Operation)
        (disk : Disk)
        → d.agent ≡ off disk
        → d.on_the_way ≡ 0
        → is_usable d.slice.row ≡ true
        → Course w verify d actions os e
        → All IsNoEnrollment actions
        → All IsNoRevocation os
        → e.slice.row ≡ none
        → Course w verify e later others f
        → All IsNoEnrollment later
        → Released w e × Released w f × All IsAcknowledgement later
    Course-no_orphan d e f actions later os others disk stopped none_sent u course h k gone more
          hs =
        let start : IsCovered w d = (rw stopped tt, λ n. absurd (n none_sent), inl u) in
        let (sound, _, usable) = Course-IsCovered course h k start in
        let done : Released w e = elim usable [
          | inl v ↦ absurd (ground (arith, rw gone at v))
          | inr r ↦ r
        ] in
        let (_, last, quiet) = Course-Released more hs sound done in (done, last, quiet)
