-- ===== src/Server/Usage.antt =====
-- api/src/modules/reports/usage.ts: how long each machine was usable. Times are milliseconds, and
-- seconds are the numbers of Number.antt, which are rounded whenever they are divided or added.
pub mod Accuracy
pub mod Order
pub mod Rows
pub mod Sums
use taymna.Common.{
  ℕ, suc, ◌+◌, ◌-◌, ◌/◌, min, max, Bool, true, false, Option, none, some, List, [], ◌∷◌, map, ltb,
  leb, if◌then◌else◌,
}
use taymna.Common.Equality.{◌==◌, nat_eq, list_eq}
use taymna.Common.Text.{Str}
use taymna.Session.{SessionStatus, active, status_eq}
use taymna.Server.{Time, Platform}
use taymna.Server.Number.{Number, seconds_of, add, math_round}

pub record UsageSession : Type 0 where
  pub machine_id : Str
  pub started_at : Time
  pub expires_at : Time
  pub ended_at : Option Time
  pub status : SessionStatus

pub record ReportedMachine : Type 0 where
  pub id : Str
  pub name : Str
  pub platform : Platform

-- A row while it adds up.
pub record Row : Type 0 where
  pub machine_id : Str
  pub name : Str
  pub platform : Platform
  pub used : Number
  pub session_count : ℕ

pub record MachineUsage : Type 0 where
  pub machine_id : Str
  pub name : Str
  pub platform : Platform
  pub used_seconds : ℕ
  pub session_count : ℕ

abbrev unwrap_or : Option Time → Time → Time
unwrap_or none t = t
unwrap_or (some e) t = e

unfoldable pub usable_until : UsageSession → Time → Time
usable_until session now =
    let deadline = session.expires_at in
    let end = min (unwrap_or session.ended_at deadline) deadline in
    if session.status == active then min end now else end

-- The part of `[start, end)` inside `[from, to)` in milliseconds, and nothing if they do not meet:
-- `overlapMs` where it is positive.
unfoldable pub overlap : Time → Time → Time → Time → ℕ
overlap start end from to = min end to - max start from

-- `overlapSeconds`: the clipped duration in seconds.
unfoldable pub overlap_seconds : Time → Time → Time → Time → Number
unfolding overlap
overlap_seconds start end from to =
    let overlap_ms = overlap start end from to in
    if ltb 0 overlap_ms then seconds_of overlap_ms else 0

abbrev pub row_of : ReportedMachine → Row
row_of m = record {
  machine_id = m.id;
  name = m.name;
  platform = m.platform;
  used = 0;
  session_count = 0;
}

-- `new Map(…)`: a later entry takes the place of an earlier one with its key.
unfoldable pub set_row : Row → List Row → List Row
set_row row [] = row ∷ []
set_row row (r ∷ rows) = if r.machine_id == row.machine_id then row ∷ rows else r ∷ set_row row rows

unfoldable pub rows_onto : List Row → List ReportedMachine → List Row
unfolding set_row
rows_onto rows [] = rows
rows_onto rows (m ∷ ms) = rows_onto (set_row (row_of m) rows) ms

module _ (from to now : Time) where
  -- The loop's body for the row that the session's machine has. A `Map` has one row for a key.
  unfoldable pub count_in : UsageSession → Row → Row
  unfolding usable_until overlap_seconds
  count_in session row =
      let used = overlap_seconds session.started_at (usable_until session now) from to in
      if leb used 0
      then row
      else record row { used = add row.used used; session_count = row.session_count + 1 }

  unfoldable pub tally : UsageSession → Row → Row
  unfolding count_in
  tally session row = if row.machine_id == session.machine_id then count_in session row else row

  unfoldable pub tally_all : List UsageSession → List Row → List Row
  unfolding tally
  tally_all [] rows = rows
  tally_all (session ∷ sessions) rows = tally_all sessions (map (tally session) rows)

unfoldable pub finish : Row → MachineUsage
finish row = record {
  machine_id = row.machine_id;
  name = row.name;
  platform = row.platform;
  used_seconds = math_round row.used;
  session_count = row.session_count;
}

-- `Array.prototype.sort` is stable: of equal elements the earlier one stays in front. `first a b` is
-- whether the comparison gives at most zero.
module _ {A : Type 0} (first : A → A → Bool) where
  unfoldable pub insert : A → List A → List A
  insert u [] = u ∷ []
  insert u (v ∷ vs) = if first u v then u ∷ v ∷ vs else v ∷ insert u vs

  unfoldable pub sort : List A → List A
  unfolding insert
  sort [] = []
  sort (u ∷ us) = insert u (sort us)

-- `locale_le a b` is `a.localeCompare(b) <= 0`.
module _ (locale_le : Str → Str → Bool) where
  abbrev pub comes_first : MachineUsage → MachineUsage → Bool
  comes_first a b =
      if ltb b.used_seconds a.used_seconds
      then true
      else if ltb a.used_seconds b.used_seconds
      then false
      else locale_le a.name b.name

  unfoldable pub summarize_usage :
      List ReportedMachine → List UsageSession → Time → Time → Time → List MachineUsage
  unfolding rows_onto tally_all finish sort
  summarize_usage machines sessions from to now =
      sort comes_first (map finish (tally_all from to now sessions (rows_onto [] machines)))

pub record ReportedSession : Type 0 where
  pub machine_id : Str
  pub started_at : Time
  pub ended_at : Time
  pub status : SessionStatus
  pub used_seconds : ℕ

-- A session with its end and what it has in the window.
pub record Part : Type 0 where
  pub session : UsageSession
  pub end : Time
  pub used : Number

abbrev pub part_of : Time → Time → Time → UsageSession → Part
part_of from to now session =
    let end = usable_until session now in
    record { session = session; end = end; used = overlap_seconds session.started_at end from to }

-- `Array.prototype.filter`.
abbrev pub select {ℓ} : {A : Type ℓ} → (A → Bool) → List A → List A
select p [] = []
select p (x ∷ xs) = if p x then x ∷ select p xs else select p xs

abbrev pub is_used : Part → Bool
is_used part = ltb 0 part.used

abbrev newer_first : Part → Part → Bool
newer_first a b = leb b.session.started_at a.session.started_at

abbrev reported : Part → ReportedSession
reported part = record {
  machine_id = part.session.machine_id;
  started_at = part.session.started_at;
  ended_at = part.end;
  status = part.session.status;
  used_seconds = math_round part.used;
}

unfoldable pub report_sessions : List UsageSession → Time → Time → Time → List ReportedSession
unfolding sort
report_sessions sessions from to now =
    map reported (sort newer_first (select is_used (map (part_of from to now) sessions)))
