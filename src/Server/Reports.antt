-- ===== src/Server/Reports.antt =====
-- api/src/modules/reports/reports.service.ts: the usage report, on the tables as the queries find
-- them.
use taymna.Common.{
  ℕ, ◌+◌, ◌-◌, ◌*◌, ◌≤◌, ◌≡◌, refl, Bool, false, ◌&&◌, ◌||◌, List, [], ◌∷◌, map, arith, ltb, leb,
  if◌then◌else◌, inl, inr, Bool-cases,
}
use taymna.Common.Equality.{◌==◌, nat_eq, list_eq}
use taymna.Common.Text.{Str}
use taymna.Server.{Time, HttpResult, ok, err, bad_request}
use taymna.Server.Usage.{
  UsageSession, ReportedMachine, Row, MachineUsage, ReportedSession, part_of, select, is_used,
  usable_until, overlap, overlap_seconds, count_in, tally, tally_all, rows_onto, summarize_usage,
  report_sessions,
}

abbrev pub max_range_ms : ℕ
max_range_ms = 366 * 24 * 60 * 60 * 1000

pub record UsageReport : Type 0 where
  pub from : Time
  pub to : Time
  pub total_used_seconds : ℕ
  pub machines : List MachineUsage
  pub sessions : List ReportedSession

-- The `where` of the query for sessions.
abbrev pub meets : Time → Time → UsageSession → Bool
meets from to s = ltb s.started_at to && ltb from s.expires_at

abbrev pub total_of : List MachineUsage → ℕ
total_of [] = 0
total_of (row ∷ rows) = row.used_seconds + total_of rows

-- `known.has(session.machineId)`.
abbrev pub is_known : List ReportedMachine → ReportedSession → Bool
is_known [] session = false
is_known (m ∷ ms) session = m.id == session.machine_id || is_known ms session

module _ (locale_le : Str → Str → Bool) where
  abbrev pub report : List ReportedMachine → List UsageSession → Time → Time → Time → UsageReport
  report machines sessions from to now =
      let rows = summarize_usage locale_le machines sessions from to now in
      record {
        from = from;
        to = to;
        total_used_seconds = total_of rows;
        machines = rows;
        sessions = select (is_known machines) (report_sessions sessions from to now);
      }

  -- `machines` and `sessions` are the tables, the machines by name.
  unfoldable pub usage :
      List ReportedMachine → List UsageSession → Time → Time → Time → HttpResult UsageReport
  unfolding summarize_usage report_sessions
  usage machines sessions from to now =
      if leb to from
      then err bad_request
      else if ltb max_range_ms (to - from)
      then err bad_request
      else ok (report machines (select (meets from to) sessions) from to now)

module _ (from to now : Time) where
  usable_until-le : (s : UsageSession) → usable_until s now ≤ s.expires_at
  unfolding usable_until
  usable_until-le s = ground arith

  overlap_missed :
      (s : UsageSession)
      → meets from to s ≡ false
      → overlap s.started_at (usable_until s now) from to ≡ 0
  unfolding overlap
  overlap_missed s h = ground (arith, usable_until-le s)

  overlap_seconds_missed :
      (s : UsageSession)
      → meets from to s ≡ false
      → overlap_seconds s.started_at (usable_until s now) from to ≡ 0
  unfolding overlap_seconds
  overlap_seconds_missed s h = rw (overlap_missed s h)

  tally_missed : (s : UsageSession) (r : Row) → meets from to s ≡ false → tally from to now s r ≡ r
  unfolding tally count_in
  tally_missed s r h = ground (arith, overlap_seconds_missed s h)

  map_missed :
      (s : UsageSession) (rows : List Row)
      → meets from to s ≡ false
      → map (tally from to now s) rows ≡ rows
  map_missed s [] h = refl
  map_missed s (r ∷ rows) h = rw (tally_missed s r h, map_missed s rows h)

  tally_all-select :
      (ss : List UsageSession) (rows : List Row)
      → tally_all from to now (select (meets from to) ss) rows ≡ tally_all from to now ss rows
  unfolding tally_all
  tally_all-select [] rows = refl
  tally_all-select (s ∷ ss) rows = elim (Bool-cases (meets from to s)) [
    | inl e ↦ rw (e) (tally_all-select ss (map (tally from to now s) rows))
    | inr e ↦ rw (e, map_missed s rows e) (tally_all-select ss rows)
  ]

  part_missed :
      (s : UsageSession) → meets from to s ≡ false → is_used (part_of from to now s) ≡ false
  part_missed s h = rw (overlap_seconds_missed s h)

  parts-select :
      (ss : List UsageSession)
      → select is_used (map (part_of from to now) (select (meets from to) ss))
        ≡ select is_used (map (part_of from to now) ss)
  parts-select [] = refl
  parts-select (s ∷ ss) = elim (Bool-cases (meets from to s)) [
    | inl e ↦ rw (e, parts-select ss)
    | inr e ↦ rw (e, part_missed s e) (parts-select ss)
  ]

report_unfiltered :
    (locale_le : Str → Str → Bool) (machines : List ReportedMachine) (ss : List UsageSession)
    (from to now : Time)
    → report locale_le machines (select (meets from to) ss) from to now
      ≡ report locale_le machines ss from to now
unfolding summarize_usage report_sessions
report_unfiltered locale_le machines ss from to now =
    rw (tally_all-select from to now ss (rows_onto [] machines), parts-select from to now ss)

-- The query may leave sessions out: for every range that is not refused the report is the one that
-- all sessions of the table would give, and a range is refused exactly if it is empty or longer
-- than 366 days.
pub usage_unfiltered :
    (locale_le : Str → Str → Bool) (machines : List ReportedMachine) (ss : List UsageSession)
    (from to now : Time)
    → usage locale_le machines ss from to now ≡ (
        if leb to from || ltb max_range_ms (to - from)
        then err bad_request
        else ok (report locale_le machines ss from to now))
unfolding usage
usage_unfiltered locale_le machines ss from to now =
    rw (report_unfiltered locale_le machines ss from to now)
      (elim (Bool-cases (leb to from)) [ inl e ↦ rw (e) | inr e ↦ rw (e) ])
