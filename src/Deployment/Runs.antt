-- ===== src/Deployment/Runs.antt =====
-- A run of the agent alone, as a course of the agent with its server.
use taymna.Common.{ℕ, ◌+◌, ◌≡◌, Bool, List, [], ◌∷◌, ◌++◌, arith}
use taymna.Common.Text.{Str}
use taymna.Server.Machines.{Slice}
use taymna.System.{
  World, System, Action, locked, unlocked, acknowledged, enrolled, Run, rest, then_move,
}
use taymna.Deployment.{Deployment, acknowledgements, move, Course, begin, then_step}

abbrev pub beside : Slice → System → ℕ → Deployment
beside slice s n = record { agent = s; on_the_way = n; slice = slice }

acknowledgements-append :
    (before now : List Action)
    → acknowledgements (before ++ now) ≡ acknowledgements before + acknowledgements now
acknowledgements-append [] now = omega arith
acknowledgements-append (locked ∷ before) now = acknowledgements-append before now
acknowledgements-append (unlocked ∷ before) now = acknowledgements-append before now
acknowledgements-append (acknowledged ∷ before) now =
    omega (arith, acknowledgements-append before now)
acknowledgements-append (enrolled ∷ before) now = acknowledgements-append before now

module _ (w : World) (verify : Str → Str → Bool) (slice : Slice) where
  pub Course-run :
      {s t : System} {actions : List Action}
      → Run w s actions t
      → Course w verify (beside slice s 0) actions [] (beside slice t (acknowledgements actions))
  Course-run (rest s) = begin _
  Course-run (then_move {before} {now} run m) =
      rw (acknowledgements-append before now) (then_step (Course-run run) (move _ now _ m))
