-- ===== src/Server/Sessions/Index.antt =====
-- At most one session of a machine is active, whatever the requests do to one another.
use taymna.Common.{
  ℕ, ◌+◌, ◌≤◌, ◌≡◌, refl, Bool, true, false, ◌&&◌, Option, none, some, List, [], ◌∷◌, arith, ltb,
  if◌then◌else◌,
}
use taymna.Common.Equality.{◌==◌, ==_iff, nat_eq, list_eq}
use taymna.Common.Text.{Str}
use taymna.Session.{active, ended, status_eq}
use taymna.Server.{Time}
use taymna.Server.Sessions.{
  Session, Table, is_active_of, any, update_many, expire_stale, sweep, create, set_expiry,
  set_ended, expire, has_id,
}

-- What the services and the cascade of a deleted machine do to the table. Requests that run at the
-- same time are their statements in any order.
pub data Statement : Type 0 where
  expiring : Str → Time → Time → Statement
  sweeping : Time → Time → Statement
  creating : Session → Statement
  extending : Str → Time → Time → Statement
  ending : Str → Time → Time → Statement
  cascading : Str → Statement

abbrev removed : Str → Table → Table
removed machine [] = []
removed machine (s ∷ t) =
    if s.machine_id == machine then removed machine t else s ∷ removed machine t

-- A statement that fails leaves the table.
abbrev or_kept : Option Table → Table → Table
or_kept none t = t
or_kept (some t') t = t'

unfoldable pub execute : Statement → Table → Table
unfolding expire_stale sweep create set_expiry set_ended
execute (expiring machine now stamp) t = expire_stale machine now stamp t
execute (sweeping now stamp) t = sweep now stamp t
execute (creating s) t = or_kept (create s t) t
execute (extending id expires_at stamp) t = set_expiry id expires_at stamp t
execute (ending id at stamp) t = set_ended id at stamp t
execute (cascading machine) t = removed machine t

unfoldable pub execute_all : List Statement → Table → Table
unfolding execute
execute_all [] t = t
execute_all (c ∷ cs) t = execute_all cs (execute c t)

abbrev pub actives : Str → Table → ℕ
actives machine [] = 0
actives machine (s ∷ t) = (if is_active_of machine s then 1 else 0) + actives machine t

abbrev pub OneActive : Table → Type 0
OneActive t = (machine : Str) → actives machine t ≤ 1

-- A change that makes no session active.
update_many-actives :
    (p : Session → Bool) (f : Session → Session)
    → ((machine : Str) (s : Session)
        → is_active_of machine (f s) ≡ true
        → is_active_of machine s ≡ true)
    → (machine : Str) (t : Table) → actives machine (update_many p f t) ≤ actives machine t
update_many-actives p f keep machine [] = omega arith
update_many-actives p f keep machine (s ∷ t) =
    ground (arith, keep machine s, update_many-actives p f keep machine t)

removed-actives :
    (gone machine : Str) (t : Table) → actives machine (removed gone t) ≤ actives machine t
removed-actives gone machine [] = omega arith
removed-actives gone machine (s ∷ t) = ground (arith, removed-actives gone machine t)

any-actives :
    (machine : Str) (t : Table) → any (is_active_of machine) t ≡ false → actives machine t ≡ 0
any-actives machine [] h = refl
any-actives machine (s ∷ t) h = ground (arith, any-actives machine t)

create-OneActive : (s : Session) (t : Table) → OneActive t → OneActive (or_kept (create s t) t)
unfolding create
create-OneActive s t one machine =
    ground (arith, one machine, any-actives s.machine_id t, ==_iff s.machine_id machine)

updated-OneActive :
    (p : Session → Bool) (f : Session → Session)
    → ((machine : Str) (s : Session)
        → is_active_of machine (f s) ≡ true
        → is_active_of machine s ≡ true)
    → (t : Table) → OneActive t
    → OneActive (update_many p f t)
updated-OneActive p f keep t one machine =
    omega (arith, update_many-actives p f keep machine t, one machine)

expired_keeps :
    (stamp : Time) (machine : Str) (s : Session)
    → is_active_of machine (expire stamp s) ≡ true
    → is_active_of machine s ≡ true
expired_keeps stamp machine s h = ground arith

execute-OneActive : (c : Statement) (t : Table) → OneActive t → OneActive (execute c t)
unfolding execute expire_stale sweep set_expiry set_ended
execute-OneActive (expiring m now stamp) t one =
    updated-OneActive (λ s. is_active_of m s && ltb s.expires_at now) (expire stamp)
      (expired_keeps stamp) t one
execute-OneActive (sweeping now stamp) t one =
    updated-OneActive (λ s. s.status == active && ltb s.expires_at now) (expire stamp)
      (expired_keeps stamp) t one
execute-OneActive (creating s) t one = create-OneActive s t one
execute-OneActive (extending id expires_at stamp) t one =
    updated-OneActive (has_id id) (λ s. record s { expires_at = expires_at; updated_at = stamp })
      (λ machine s h. h) t one
execute-OneActive (ending id at stamp) t one =
    updated-OneActive (has_id id)
      (λ s. record s { status = ended; ended_at = some at; updated_at = stamp })
      (λ machine s h. ground arith) t one
execute-OneActive (cascading m) t one =
    λ machine. omega (arith, removed-actives m machine t, one machine)

-- At most one session of a machine is active, in whatever order the statements of any requests, of
-- the sweeper and of the deletions of machines come, and whichever of them the index refuses.
pub execute_all-OneActive :
    (cs : List Statement) (t : Table) → OneActive t → OneActive (execute_all cs t)
unfolding execute_all
execute_all-OneActive [] t one = one
execute_all-OneActive (c ∷ cs) t one =
    execute_all-OneActive cs (execute c t) (execute-OneActive c t one)
