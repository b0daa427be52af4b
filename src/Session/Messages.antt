-- ===== src/Session/Messages.antt =====
-- The stale-message rule, and the order in which the pushes arrive.
use mathlib.Core.Logic.{∥∥₁_elim}
use mathlib.Core.List.{Perm, Permᴰ}
use native.Mathlib.Nat.{ℕ_set}
use taymna.Common.{
  ap, ◌≤◌, ◌≡◌, Option, List, [], ◌∷◌, arith, DateTime, refl, ◌∙◌, leb, max, map, if◌then◌else◌,
}
use taymna.Session.{SessionSnapshot, apply_server_message}

-- What the agent holds between two messages: the session and `last_applied_at`.
abbrev pub Held : Type 0
Held = Option SessionSnapshot × DateTime

abbrev pub Push : Type 0
Push = Option SessionSnapshot × DateTime

unfoldable pub receive : Held → Push → Held
receive (session, last) (incoming, time) =
    let (session', last', applied) = apply_server_message session last incoming time in
    (session', last')

unfoldable pub receive_all : Held → List Push → Held
receive_all held [] = held
receive_all held (p ∷ ps) = receive_all (receive held p) ps

-- The pushes of a server that has one session, or none, to report at each instant.
abbrev pub pushes : (DateTime → Option SessionSnapshot) → List DateTime → List Push
pushes report = map λ time. (report time, time)

-- The latest of some instants, and of those of a list.
abbrev pub latest : DateTime → List DateTime → DateTime
latest last [] = last
latest last (time ∷ times) = latest (max last time) times

le-latest : (last : DateTime) (times : List DateTime) → last ≤ latest last times
le-latest last [] = omega arith
le-latest last (time ∷ times) = omega (arith, le-latest (max last time) times)

receive_lem :
    (report : DateTime → Option SessionSnapshot) (session : Option SessionSnapshot)
    (last time : DateTime)
    → receive (session, last) (report time, time)
      ≡ (if leb time last then session else report time, max last time)
unfolding receive apply_server_message
receive_lem report session last time = ground arith

-- After any number of pushes, in whatever order they arrived, of a server that reports one session
-- or none for each instant, the agent holds what was reported for the latest of their times if
-- that is newer than all it had applied before, and the session that it held before otherwise;
-- `last_applied_at` is the latest of all these times.
pub receive_all-latest :
    (report : DateTime → Option SessionSnapshot) (session : Option SessionSnapshot)
    (last : DateTime) (times : List DateTime)
    → let newest = latest last times in
      receive_all (session, last) (pushes report times)
      ≡ (if leb newest last then session else report newest, newest)
unfolding receive_all
receive_all-latest report session last [] = ground arith
receive_all-latest report session last (time ∷ times) =
    let next = if leb time last then session else report time in
    ground (
      arith,
      receive_lem report session last time,
      receive_all-latest report next (max last time) times,
      le-latest (max last time) times,
    )

receive_comm :
    (report : DateTime → Option SessionSnapshot) (held : Held) (s t : DateTime)
    → receive (receive held (report s, s)) (report t, t)
      ≡ receive (receive held (report t, t)) (report s, s)
unfolding receive apply_server_message
receive_comm report held s t = ground arith

Held-set : IsSet Held
Held-set = hlevel ℕ_set

receive_all_of_Permᴰ :
    (report : DateTime → Option SessionSnapshot) (held : Held) {ss ts : List DateTime}
    → Permᴰ ss ts
    → receive_all held (pushes report ss) ≡ receive_all held (pushes report ts)
unfolding receive_all
receive_all_of_Permᴰ report held Permᴰ.nil = refl
receive_all_of_Permᴰ report held (Permᴰ.cons {a = s} e p) =
    rw (← e) (receive_all_of_Permᴰ report (receive held (report s, s)) p)
receive_all_of_Permᴰ report held (Permᴰ.swap {a = s} {b = t} {l} e f) =
    rw (← e, ← f) (ap (λ h. receive_all h (pushes report l)) (receive_comm report held s t))
receive_all_of_Permᴰ report held (Permᴰ.trans p q) =
    receive_all_of_Permᴰ report held p ∙ receive_all_of_Permᴰ report held q

-- Two orders of arrival of the same pushes, of a server that reports one session or none for each
-- instant, leave the agent with the same session and the same `last_applied_at`.
pub receive_all-perm :
    (report : DateTime → Option SessionSnapshot) (held : Held) {ss ts : List DateTime}
    → Perm ss ts
    → receive_all held (pushes report ss) ≡ receive_all held (pushes report ts)
receive_all-perm report held p = ∥∥₁_elim p (Held-set _ _) (receive_all_of_Permᴰ report held)
