-- ===== src/System/Invariant.antt =====
-- What holds of the whole agent at all times.
use taymna.Common.{
  ◌≡◌, ◌⊎◌, refl, Bool, true, false, Option, none, some, List, [], ◌∷◌, ◌++◌, arith, inl, inr,
  subst,
}
use taymna.Storage.Atomic.{RoundTrips}
use taymna.Client.{ClientCommand, ack_decommission}
use taymna.Client.Connection
use taymna.Client.Connection.{Act, drain, Round}
use taymna.Client.Connection.Finalized.{drain-true}
use taymna.Agent.{Input, running, stopped, failed, Flow}
use taymna.Agent.Rounds.{step}
use taymna.Agent.Durability.{decommissioned_on_disk}
use taymna.System.{
  World, Process, Link, Action, seen, sent, commands_of, looped, linked, served, dialled, System,
  off, on, disk_of, Move, boot, loop, connect, serve, vanish, enroll_again, undrained, unread,
  loops, IsAwaited,
}
use taymna.System.Lifecycle.{Life, stay}
use taymna.System.Lawful.{IsExact, phase}
use taymna.System.Lawful.Rounds.{step-IsLawful}
use taymna.System.Links.{ack_of, asks, IsBackedLink, served-IsBackedLink, dialled-IsBackedLink}
use taymna.System.Stored.{IsExactStart, start-IsExactStart, enroll-Life}

drain-append :
    (ack : Bool) (xs ys : List ClientCommand) → drain ack (xs ++ ys) ≡ drain (drain ack xs) ys
drain-append ack [] ys = refl
drain-append ack (ack_decommission ∷ xs) ys = drain-append true xs ys

-- Something to acknowledge comes from the flag or from the queue.
drain_from :
    (ack : Bool) (xs : List ClientCommand)
    → drain ack xs ≡ true
    → (ack ≡ true) ⊎ (drain false xs ≡ true)
drain_from ack [] h = inl h
drain_from ack (ack_decommission ∷ xs) h = inr h

drain_kept : (ack : Bool) (xs : List ClientCommand) → drain false xs ≡ true → drain ack xs ≡ true
drain_kept ack [] h = absurd (ground arith)
drain_kept ack (ack_decommission ∷ xs) h = h

-- What a connection and a round leave in the queue was in it.
drain-undrained :
    (ack : Bool) (e : Option Connection.Error) (xs : List ClientCommand)
    → drain false (undrained e xs) ≡ true
    → drain ack xs ≡ true
drain-undrained ack none xs h = absurd (ground arith)
drain-undrained ack (some e) xs h = drain_kept ack xs h

drain-unread :
    (ack : Bool) (r : Round) (xs : List ClientCommand)
    → drain false (unread r xs) ≡ true
    → drain ack xs ≡ true
drain-unread ack (Connection.command (some c) e) [] h = absurd (ground arith)
drain-unread ack (Connection.command (some c) e) (ack_decommission ∷ xs) h = drain-true xs
drain-unread ack (Connection.command none e) xs h = drain_kept ack xs h
drain-unread ack (Connection.heartbeat_due at_ms e) xs h = drain_kept ack xs h
drain-unread ack (Connection.message m at_ms e) xs h = drain_kept ack xs h

drain_asked :
    (ack : Bool) (p : Process) (r : Round)
    → IsAwaited p r
    → asks r ≡ true
    → drain ack p.commands ≡ true
drain_asked ack p (Connection.command (some ack_decommission) e) (rest, h) a =
    rw h (drain-true rest)
drain_asked ack p (Connection.command none e) h a = absurd (ground arith)
drain_asked ack p (Connection.heartbeat_due at_ms e) h a = absurd (ground arith)
drain_asked ack p (Connection.message m at_ms e) h a = absurd (ground arith)

module _ (w : World) where
  open w use {external}

  -- While the loop runs its flag, that of its state and the file agree, and as long as there is
  -- something to acknowledge, on the connection or in the queue, the file says that the machine is
  -- decommissioned.
  abbrev pub IsSound : System → Type 0
  IsSound (off disk) = Unit {0}
  IsSound (on p) =
      (p.is_looping ≡ true → IsExact external p.agent)
      × (drain (ack_of p.link) p.commands ≡ true
          → decommissioned_on_disk external p.agent.disk ≡ true)

  loops_iff : (f : Flow) → loops f ≡ true → f ≡ running
  loops_iff running h = refl
  loops_iff stopped h = absurd (ground arith)
  loops_iff (failed e) h = absurd (ground arith)

  module _ (law : RoundTrips external.to_json external.from_json) where
    loop-IsSound :
        (p : Process) (i : Input)
        → p.is_looping ≡ true
        → IsSound (on p)
        → IsSound (on (looped w p i))
          × Life
              (phase external p.agent.disk)
              (seen (step external p.agent i).effects)
              (phase external (looped w p i).agent.disk)
    loop-IsSound p i h (exact, covered) =
        let s = step external p.agent i in
        let (still, life, asked, stays) = step-IsLawful external law p.agent i (exact h) in
        (
          (
            λ l. still (loops_iff s.flow l),
            λ d.
                elim (drain_from (drain (ack_of p.link) p.commands) (commands_of s.effects)
                  (rw⁻¹ (drain-append (ack_of p.link) p.commands (commands_of s.effects)) d)) [
                    | inl c ↦ stays (covered c)
                    | inr c ↦ asked c
                  ],
          ),
          life,
        )

    linked-IsSound :
        (p : Process) (commands : List ClientCommand) (done : List Act × Link)
        → IsSound (on p)
        → IsBackedLink (decommissioned_on_disk external p.agent.disk) done
        → (drain false commands ≡ true → decommissioned_on_disk external p.agent.disk ≡ true)
        → IsSound (on (linked p commands done))
          × Life (phase external p.agent.disk) (sent done.0) (phase external p.agent.disk)
    linked-IsSound p commands (acts, link) (exact, covered) (life, backed) h = (
      (exact, λ d. elim (drain_from (ack_of link) commands d) [ inl c ↦ backed c | inr c ↦ h c ]),
      life,
    )

    pub Move-IsSound :
        {s t : System} {actions : List Action}
        → Move w s actions t
        → IsSound s
        → IsSound t × Life (phase external (disk_of s)) actions (phase external (disk_of t))
    Move-IsSound (boot disk read now instant c a effects e) sound =
        let (exact, same, asked) =
          subst (IsExactStart external disk) e
            (start-IsExactStart external disk read now instant) in
        ((λ _. exact, λ d. rw same (asked d)), rw same (stay _))
    Move-IsSound (loop p i h offered) sound = loop-IsSound p i h sound
    Move-IsSound (connect p ack backoff ep e pending) (exact, covered) =
        linked-IsSound p (undrained ep.connect p.commands) (dialled w backoff ack ep)
          (exact, covered)
          (dialled-IsBackedLink w _ backoff ack ep
            (λ d. covered (rw e (subst (λ xs. drain ack xs ≡ true) pending d)))
            (λ d. covered (rw (e, d) (drain-true p.commands))))
          (λ d. covered (drain-undrained (ack_of p.link) ep.connect p.commands d))
    Move-IsSound (serve p c backoff r e awaited) (exact, covered) =
        linked-IsSound p (unread r p.commands) (served w backoff c r) (exact, covered)
          (served-IsBackedLink w _ backoff c r (λ d. covered (rw (e, d) (drain-true p.commands)))
            (λ d. covered (drain_asked (ack_of p.link) p r awaited d)))
          (λ d. covered (drain-unread (ack_of p.link) r p.commands d))
    Move-IsSound (vanish p) sound = (tt, stay _)
    Move-IsSound (enroll_again disk server answer read rename now io h) sound =
        (tt, enroll-Life w law disk server answer read rename now io h)
