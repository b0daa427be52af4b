-- ===== src/Deployment/Covered.antt =====
-- The invariant of a course: what an acknowledgement that is on the way says, and what the row says.
use taymna.Common.{
  ℕ, ◌+◌, ◌≡◌, zero, suc, ◌≢◌, ◌⊎◌, inl, inr, refl, Bool, true, false, Option, none, some, List,
  All, arith,
}
use taymna.Common.Text.{Str}
use taymna.Storage.Atomic.{RoundTrips}
use taymna.Agent.Durability.{decommissioned_on_disk}
use taymna.Server.Machines.{
  Machine, Slice, Operation, revoke, remove, acknowledge, connect, disconnected, heartbeat, issue,
  enroll, perform, has_usable_credential, remove_read, request_decommission, finalize_decommission,
  record_heartbeat, issue_enrollment_token, redeem, authenticate_agent,
}
use taymna.System.{World, System, disk_of, Action, Move}
use taymna.System.Lifecycle
use taymna.System.Lifecycle.{
  Phase, released, Life, IsNoEnrollment, IsAcknowledgement, Life-released, stay, lock, unlock,
  release,
}
use taymna.System.Invariant.{IsSound, Move-IsSound}
use taymna.System.Refinement.{released_iff}
use taymna.Deployment.{
  Deployment, acknowledgements, IsRequest, IsNoRevocation, Step, move, operate, arrive, lose,
}

abbrev pub is_usable : Option Machine → Bool
is_usable none = false
is_usable (some m) = has_usable_credential m

-- Whoever acknowledges without an enrollment is released in the end.
Life-acknowledges :
    {p q : Phase} {actions : List Action}
    → Life p actions q
    → All IsNoEnrollment actions
    → acknowledgements actions ≢ 0
    → q ≡ released
Life-acknowledges (stay p) h n = absurd (n refl)
Life-acknowledges (lock life) (_, h) n = Life-acknowledges life h n
Life-acknowledges (unlock life) (_, h) n = Life-acknowledges life h n
Life-acknowledges (release life) h n = Life-acknowledges life h n
Life-acknowledges (Lifecycle.acknowledge life) (_, h) n = (Life-released life h).1
Life-acknowledges (Lifecycle.enroll life) (h, _) n = absurd h

-- A request leaves a machine with a usable credential one, unless it revokes it.
request_usable :
    (verify : Str → Str → Bool) (o : Operation) (s : Slice)
    → is_usable s.row ≡ true
    → IsRequest o
    → IsNoRevocation o
    → is_usable (perform verify o s).0.row ≡ true
unfolding perform request_decommission remove_read finalize_decommission record_heartbeat
    issue_enrollment_token redeem authenticate_agent
request_usable verify (revoke now) s u r h = absurd h
request_usable verify (remove now) s u r h = ground arith
request_usable verify acknowledge s u r h = absurd r
request_usable verify (connect secret now) s u r h = ground arith
request_usable verify disconnected s u r h = u
request_usable verify (heartbeat now) s u r h = ground arith
request_usable verify (issue token) s u r h = ground arith
request_usable verify (enroll id secret hash now) s u r h = ground arith

sum_zero : (m n : ℕ) → m + n ≢ 0 → (m ≢ 0) ⊎ (n ≢ 0)
sum_zero zero n h = inr (λ e. h (omega (arith, e)))
sum_zero (suc m) n h = inl (omega arith)

module _ (w : World) where
  open w use {external}

  abbrev pub Released : Deployment → Type 0
  Released d = decommissioned_on_disk external (disk_of d.agent) ≡ true

  -- While an acknowledgement is on the way the agent has let go, and the row of one that has not is
  -- usable.
  abbrev pub IsCovered : Deployment → Type 0
  IsCovered d =
      IsSound w d.agent
      × (d.on_the_way ≢ 0 → Released d)
      × ((is_usable d.slice.row ≡ true) ⊎ Released d)

  module _ (law : RoundTrips external.to_json external.from_json) where
    Move-Released :
        (d : Deployment) (actions : List Action) (t : System)
        → Move w d.agent actions t
        → IsSound w d.agent
        → All IsNoEnrollment actions
        → Released d
        → (All IsAcknowledgement actions) × (decommissioned_on_disk external (disk_of t) ≡ true)
    Move-Released d actions t m sound h r =
        let life = (Move-IsSound w law m sound).1 in
        let (quiet, same) = Life-released (rw r at life) h in (quiet, released_iff _ same)

    Move-acknowledges :
        (d : Deployment) (actions : List Action) (t : System)
        → Move w d.agent actions t
        → IsSound w d.agent
        → All IsNoEnrollment actions
        → acknowledgements actions ≢ 0
        → decommissioned_on_disk external (disk_of t) ≡ true
    Move-acknowledges d actions t m sound h n =
        released_iff _ (Life-acknowledges (Move-IsSound w law m sound).1 h n)

    pub Step-IsCovered :
        {verify : Str → Str → Bool} {d : Deployment} {actions : List Action} {os : List Operation}
        {e : Deployment}
        → Step w verify d actions os e
        → All IsNoEnrollment actions
        → All IsNoRevocation os
        → IsCovered d
        → IsCovered e
    Step-IsCovered (move d actions t m) h k (sound, covered, usable) =
        let on : Released d → decommissioned_on_disk external (disk_of t) ≡ true =
          λ r. (Move-Released d actions t m sound h r).1 in
        (
          (Move-IsSound w law m sound).0,
          λ n. elim (sum_zero d.on_the_way (acknowledgements actions) n) [
            | inl a ↦ on (covered a)
            | inr b ↦ Move-acknowledges d actions t m sound h b
          ],
          elim usable [ inl u ↦ inl u | inr r ↦ inr (on r) ],
        )
    Step-IsCovered (operate d o r) h (k, _) (sound, covered, usable) = (
      sound,
      covered,
      elim usable [ inl u ↦ inl (request_usable _ o d.slice u r k) | inr done ↦ inr done ],
    )
    Step-IsCovered (arrive d n e) h k (sound, covered, usable) =
        let done = covered (omega arith) in (sound, λ _. done, inr done)
    Step-IsCovered (lose d n e) h k (sound, covered, usable) =
        (sound, λ _. covered (omega arith), usable)

    pub Step-Released :
        {verify : Str → Str → Bool} {d : Deployment} {actions : List Action} {os : List Operation}
        {e : Deployment}
        → Step w verify d actions os e
        → All IsNoEnrollment actions
        → IsSound w d.agent
        → Released d
        → IsSound w e.agent × Released e × All IsAcknowledgement actions
    Step-Released (move d actions t m) h sound r =
        let (quiet, on) = Move-Released d actions t m sound h r in
        ((Move-IsSound w law m sound).0, on, quiet)
    Step-Released (operate d o q) h sound r = (sound, r, tt)
    Step-Released (arrive d n e) h sound r = (sound, r, tt)
    Step-Released (lose d n e) h sound r = (sound, r, tt)
