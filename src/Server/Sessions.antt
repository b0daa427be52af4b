-- ===== src/Server/Sessions.antt =====
-- api/src/modules/sessions: the table of sessions, its statements, and the requests that they make
-- up. Each statement is one step of the database; `now` is a reading of the server's clock and
-- `stamp` the one that the database client makes for `updatedAt`.
pub mod Index
pub mod Requests
use taymna.Common.{
  ℕ, ◌+◌, ◌*◌, Bool, true, false, ◌&&◌, ◌||◌, Option, none, some, List, [], ◌∷◌, map, ltb, leb,
  if◌then◌else◌,
}
use taymna.Common.Equality.{◌==◌, nat_eq, list_eq}
use taymna.Common.Text.{Str}
use taymna.Session.{SessionStatus, active, expired, ended, status_eq}
use taymna.Server.{Time, HttpResult, ok, err, not_found, conflict}

pub record Session : Type 0 where
  pub id : Str
  pub machine_id : Str
  pub started_at : Time
  pub expires_at : Time
  pub ended_at : Option Time
  pub status : SessionStatus
  pub updated_at : Time

abbrev pub Table : Type 0
Table = List Session

-- An active session of a machine.
abbrev pub is_active_of : Str → Session → Bool
is_active_of machine s = s.machine_id == machine && s.status == active

abbrev pub any : (Session → Bool) → Table → Bool
any p [] = false
any p (s ∷ t) = p s || any p t

-- `findFirst`, and `findUnique` by the id.
unfoldable pub find_first : (Session → Bool) → Table → Option Session
find_first p [] = none
find_first p (s ∷ t) = if p s then some s else find_first p t

abbrev pub has_id : Str → Session → Bool
has_id id s = s.id == id

-- `updateMany` and `update`: the rows that meet a condition are changed.
abbrev pub update_many : (Session → Bool) → (Session → Session) → Table → Table
update_many p f = map λ s. if p s then f s else s

abbrev expire : Time → Session → Session
expire stamp s = record s { status = expired; updated_at = stamp }

unfoldable pub expire_stale : Str → Time → Time → Table → Table
expire_stale machine now stamp =
    update_many (λ s. is_active_of machine s && ltb s.expires_at now) (expire stamp)

-- The sweeper's statement.
unfoldable pub sweep : Time → Time → Table → Table
sweep now stamp = update_many (λ s. s.status == active && ltb s.expires_at now) (expire stamp)

-- The partial unique index refuses a second active session of a machine: `P2002`.
unfoldable pub create : Session → Table → Option Table
create s t = if any (is_active_of s.machine_id) t then none else some (s ∷ t)

unfoldable pub set_expiry : Str → Time → Time → Table → Table
set_expiry id expires_at stamp =
    update_many (has_id id) (λ s. record s { expires_at = expires_at; updated_at = stamp })

unfoldable pub set_ended : Str → Time → Time → Table → Table
set_ended id at stamp =
    update_many (has_id id)
      (λ s. record s { status = ended; ended_at = some at; updated_at = stamp })

abbrev pub started : (id machine : Str) (now stamp : Time) (minutes : ℕ) → Session
started id machine now stamp minutes = record {
  id = id;
  machine_id = machine;
  started_at = now;
  expires_at = now + minutes * 60000;
  ended_at = none;
  status = active;
  updated_at = stamp;
}

-- The readings of the clock that a request makes: `stale` to tell what has expired, in
-- `expireStaleActiveSession` or `requireActiveSession`, and `now` for what it writes, each with the
-- stamp behind it.
pub record Readings : Type 0 where
  pub stale : Time
  pub stale_stamp : Time
  pub now : Time
  pub stamp : Time

unfoldable pub get_active_session : Str → Readings → Table → Table × Option Session
unfolding expire_stale find_first
get_active_session machine r t =
    let t' = expire_stale machine r.stale r.stale_stamp t in
    (t', find_first (is_active_of machine) t')

abbrev created : Table → Session → Option Table → Table × HttpResult Session
created t s none = (t, err conflict)
created t s (some t') = (t', ok s)

-- `known` is whether the machine is found, and `id` the id that the database makes.
unfoldable pub start : Bool → Str → Str → ℕ → Readings → Table → Table × HttpResult Session
unfolding expire_stale create
start false id machine minutes r t = (t, err not_found)
start true id machine minutes r t =
    let t' = expire_stale machine r.stale r.stale_stamp t in
    let s = started id machine r.now r.stamp minutes in created t' s (create s t')

unfoldable pub require_active : Option Session → Time → HttpResult Session
require_active none now = err not_found
require_active (some s) now =
    if s.status == active && ltb now s.expires_at then ok s else err conflict

abbrev extended : HttpResult Session → ℕ → Time → Table → Table × HttpResult Session
unfolding set_expiry
extended (err e) minutes stamp t = (t, err e)
extended (ok s) minutes stamp t =
    let expires_at = s.expires_at + minutes * 60000 in
    (
      set_expiry s.id expires_at stamp t,
      ok (record s { expires_at = expires_at; updated_at = stamp }),
    )

unfoldable pub extend : Str → ℕ → Readings → Table → Table × HttpResult Session
unfolding find_first require_active set_expiry
extend id minutes r t =
    extended (require_active (find_first (has_id id) t) r.stale) minutes r.stamp t

abbrev ending : HttpResult Session → Time → Time → Table → Table × HttpResult Session
unfolding set_ended
ending (err e) at stamp t = (t, err e)
ending (ok s) at stamp t = (
  set_ended s.id at stamp t,
  ok (record s { status = ended; ended_at = some at; updated_at = stamp }),
)

unfoldable pub end : Str → Readings → Table → Table × HttpResult Session
unfolding find_first require_active set_ended
end id r t = ending (require_active (find_first (has_id id) t) r.stale) r.now r.stamp t
