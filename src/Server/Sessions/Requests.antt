-- ===== src/Server/Sessions/Requests.antt =====
-- What a request answers, and what is then in the table.
use taymna.Common.{
  ℕ, ◌+◌, ◌*◌, ◌≡◌, ◌≢◌, refl, Bool, true, false, ◌&&◌, Option, none, some, [], ◌∷◌, arith, leb,
  if◌then◌else◌, inl, inr, Bool-cases, Option-cases,
}
use taymna.Common.Equality.{==_iff, nat_eq, list_eq}
use taymna.Common.Text.{Str}
use taymna.Session.{active, status_eq}
use taymna.Server.{Time, HttpResult, ok, err, not_found, conflict}
use taymna.Server.Sessions.{
  Session, Table, is_active_of, any, find_first, has_id, expire_stale, create, started, Readings,
  start, require_active, extend, end,
}

-- A session of a machine that is active and not past its deadline.
abbrev pub blocks : Str → Time → Session → Bool
blocks machine now s = is_active_of machine s && leb now s.expires_at

any_stale :
    (machine : Str) (now stamp : Time) (t : Table)
    → any (is_active_of machine) (expire_stale machine now stamp t) ≡ any (blocks machine now) t
unfolding expire_stale
any_stale machine now stamp [] = refl
any_stale machine now stamp (s ∷ t) = ground (arith, any_stale machine now stamp t)

-- Starting a session answers that the machine is not found exactly if it is not known, a conflict
-- exactly if it has an active session whose deadline is not past, and otherwise with a session that
-- is active from now on for the minutes that were asked for.
pub start_lem :
    (known : Bool) (id machine : Str) (minutes : ℕ) (r : Readings) (t : Table)
    → (start known id machine minutes r t).1 ≡ (
        if known
        then (if any (blocks machine r.stale) t
            then err conflict
            else ok (started id machine r.now r.stamp minutes))
        else err not_found)
unfolding start create
start_lem false id machine minutes r t = refl
start_lem true id machine minutes r t = ground (arith, any_stale machine r.stale r.stale_stamp t)

-- A session that has been started is the one that a connecting agent is told of.
pub start-find_first :
    (known : Bool) (id machine : Str) (minutes : ℕ) (r : Readings) (t : Table) (s : Session)
    → (start known id machine minutes r t).1 ≡ ok s
    → find_first (is_active_of machine) (start known id machine minutes r t).0 ≡ some s
unfolding start create find_first
start-find_first false id machine minutes r t s h = ground arith
start-find_first true id machine minutes r t s h = ground (arith, ==_iff machine machine)

find_first-any :
    (p q : Session → Bool) (t : Table) (s : Session)
    → find_first p t ≡ some s
    → q s ≡ true
    → any q t ≡ true
unfolding find_first
find_first-any p q [] s h k = ground arith
find_first-any p q (u ∷ t) s h k = elim (Bool-cases (p u)) [
  | inl e ↦
      let found : some u ≡ some s = rw e at h in let here : u ≡ s = ground arith in rw (here, k)
  | inr e ↦ let later = find_first-any p q t s (rw e at h) k in ground arith
]

-- In the millisecond of its deadline an active session can be neither ended nor extended, and no
-- other can be started on its machine.
pub deadline_refused :
    (id fresh : Str) (minutes : ℕ) (r : Readings) (t : Table) (s : Session)
    → find_first (has_id id) t ≡ some s
    → s.status ≡ active
    → r.stale ≡ s.expires_at
    → ((end id r t).1 ≡ err conflict)
      × ((extend id minutes r t).1 ≡ err conflict)
      × ((start true fresh s.machine_id minutes r t).1 ≡ err conflict)
unfolding end extend require_active
deadline_refused id fresh minutes r t s found is at =
    let blocked =
      find_first-any (has_id id) (blocks s.machine_id r.stale) t s found
        (ground (arith, ==_iff s.machine_id s.machine_id)) in
    let refused = start_lem true fresh s.machine_id minutes r t in
    (rw (found) (ground arith), rw (found) (ground arith), ground arith)

-- The three requests, and until when each of them grants the machine.
pub data Request : Type 0 where
  starting : (known : Bool) (id machine : Str) (minutes : ℕ) → Request
  extending : (id : Str) (minutes : ℕ) → Request
  ending : (id : Str) → Request

abbrev pub request : Request → Readings → Table → Table × HttpResult Session
request (starting known id machine minutes) = start known id machine minutes
request (extending id minutes) = extend id minutes
request (ending id) = end id

abbrev later : ℕ → Option Session → Option Time
later minutes none = none
later minutes (some s) = some (s.expires_at + minutes * 60000)

abbrev pub granted : Request → Readings → Table → Option Time
granted (starting known id machine minutes) r t = some (r.now + minutes * 60000)
granted (extending id minutes) r t = later minutes (find_first (has_id id) t)
granted (ending id) r t = none

abbrev pub IsGranted : Session → Time → Option Time → Type 0
IsGranted s stamp none = (s.updated_at ≡ stamp) × (s.status ≢ active)
IsGranted s stamp (some until) =
    (s.updated_at ≡ stamp) × (s.status ≡ active) × (s.expires_at ≡ until)

-- A session of a request that succeeds.
pub request-IsGranted :
    (q : Request) (r : Readings) (t : Table) (s : Session)
    → (request q r t).1 ≡ ok s
    → IsGranted s r.stamp (granted q r t)
unfolding start extend end require_active create
request-IsGranted (starting false id machine minutes) r t s h = ground arith
request-IsGranted (starting true id machine minutes) r t s h = ground arith
request-IsGranted (extending id minutes) r t s h = elim (Option-cases (find_first (has_id id) t)) [
  | inl e ↦ ground arith
  | inr (old, e) ↦ rw (e) (ground arith)
]
request-IsGranted (ending id) r t s h = elim (Option-cases (find_first (has_id id) t)) [
  | inl e ↦ ground arith
  | inr (old, e) ↦ ground arith
]
