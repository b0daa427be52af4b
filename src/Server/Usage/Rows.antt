-- ===== src/Server/Usage/Rows.antt =====
-- What the summary of `summarize_usage` holds.
use mathlib.Core.List.{Perm, append-nil, append_assoc}
use taymna.Common.{
  ℕ, ◌+◌, ◌≡◌, refl, sym, ap, ◌∙◌, Bool, true, false, List, [], ◌∷◌, ◌++◌, map, arith, inl, inr,
  Bool-cases, All, All-append, length, ltb,
}
use taymna.Common.Equality.{◌==◌, nat_eq, list_eq}
use taymna.Common.Text.{Str}
use taymna.Server.{Time}
use taymna.Server.Usage.{
  UsageSession, ReportedMachine, Row, MachineUsage, row_of, set_row, rows_onto, tally, tally_all,
  finish, comes_first, sort, summarize_usage, overlap, usable_until, overlap_seconds, count_in,
}
use taymna.Server.Usage.Order.{IsDescending, sort-perm, sort-IsDescending}
use taymna.Server.Usage.Sums.{parts_of, added_to}
use taymna.Server.Number.{add, math_round, seconds_of, seconds_of_positive}

-- No two machines have one id.
abbrev pub IsKeyed : List ReportedMachine → Type 0
IsKeyed [] = Unit {0}
IsKeyed (m ∷ ms) = All (λ n. (m.id == n.id) ≡ false) ms × IsKeyed ms

-- What the report is to say of a machine.
unfoldable pub usage_of : List UsageSession → Time → Time → Time → ReportedMachine → MachineUsage
unfolding parts_of added_to
usage_of ss from to now m = record {
  machine_id = m.id;
  name = m.name;
  platform = m.platform;
  used_seconds = math_round (added_to 0 (parts_of m.id ss from to now));
  session_count = length (parts_of m.id ss from to now);
}

-- No row has the id of a machine.
abbrev IsNew : List Row → ReportedMachine → Type 0
IsNew rows m = All (λ r. (r.machine_id == m.id) ≡ false) rows

set_row_new :
    (m : ReportedMachine) (rows : List Row)
    → IsNew rows m
    → set_row (row_of m) rows ≡ rows ++ row_of m ∷ []
unfolding set_row
set_row_new m [] h = refl
set_row_new m (r ∷ rows) (n, h) = rw (n) (ap (◌∷◌ r) (set_row_new m rows h))

IsNew-snoc :
    (rows : List Row) (m : ReportedMachine) (ms : List ReportedMachine)
    → All (IsNew rows) ms
    → All (λ n. (m.id == n.id) ≡ false) ms
    → All (IsNew (rows ++ row_of m ∷ [])) ms
IsNew-snoc rows m [] h k = tt
IsNew-snoc rows m (n ∷ ms) (new, h) (e, k) = (
  All-append (λ r. (r.machine_id == n.id) ≡ false) rows (row_of m ∷ []) new (e, tt),
  IsNew-snoc rows m ms h k,
)

rows_onto_new :
    (rows : List Row) (ms : List ReportedMachine)
    → All (IsNew rows) ms
    → IsKeyed ms
    → rows_onto rows ms ≡ rows ++ map row_of ms
unfolding rows_onto
rows_onto_new rows [] h k = sym (append-nil rows)
rows_onto_new rows (m ∷ ms) (new, h) (apart, k) = rw (set_row_new m rows new) (
    rows_onto_new (rows ++ row_of m ∷ []) ms (IsNew-snoc rows m ms h apart) k
    ∙ append_assoc rows (row_of m ∷ []) (map row_of ms))

Always-IsNew : (ms : List ReportedMachine) → All (IsNew []) ms
Always-IsNew [] = tt
Always-IsNew (m ∷ ms) = (tt, Always-IsNew ms)

module _ (from to now : Time) where
  tally_each : List UsageSession → Row → Row
  tally_each [] row = row
  tally_each (s ∷ ss) row = tally_each ss (tally from to now s row)

  tally_all-cons :
      (ss : List UsageSession) (r : Row) (rows : List Row)
      → tally_all from to now ss (r ∷ rows) ≡ tally_each ss r ∷ tally_all from to now ss rows
  unfolding tally_all tally_each
  tally_all-cons [] r rows = refl
  tally_all-cons (s ∷ ss) r rows =
      tally_all-cons ss (tally from to now s r) (map (tally from to now s) rows)

  tally_all-nil : (ss : List UsageSession) → tally_all from to now ss [] ≡ []
  unfolding tally_all
  tally_all-nil [] = refl
  tally_all-nil (s ∷ ss) = tally_all-nil ss

  -- A row with what the sessions add to it.
  abbrev added : List UsageSession → Row → Row
  added ss r = record r {
    used = added_to r.used (parts_of r.machine_id ss from to now);
    session_count = r.session_count + length (parts_of r.machine_id ss from to now);
  }

  -- The part of a session in the window, in milliseconds.
  abbrev part : UsageSession → ℕ
  part s = overlap s.started_at (usable_until s now) from to

  count_in_used :
      (s : UsageSession) (r : Row)
      → ltb 0 (part s) ≡ true
      → count_in from to now s r
        ≡ record r { used = add r.used (seconds_of (part s)); session_count = r.session_count + 1 }
  unfolding count_in overlap_seconds
  count_in_used s r f = ground (arith, seconds_of_positive (part s))

  count_in_unused :
      (s : UsageSession) (r : Row) → ltb 0 (part s) ≡ false → count_in from to now s r ≡ r
  unfolding count_in overlap_seconds
  count_in_unused s r f = rw f refl

  added_step :
      (s : UsageSession) (ss : List UsageSession) (r : Row)
      → added ss (tally from to now s r) ≡ added (s ∷ ss) r
  unfolding tally parts_of added_to
  added_step s ss r = elim (Bool-cases (r.machine_id == s.machine_id)) [
    | inl e ↦ elim (Bool-cases (ltb 0 (part s))) [
      | inl f ↦ rw (e, count_in_used s r f, f) (ground arith)
      | inr f ↦ rw (e, count_in_unused s r f, f) refl
    ]
    | inr e ↦ rw (e) refl
  ]

  tally_each_lem : (ss : List UsageSession) (r : Row) → tally_each ss r ≡ added ss r
  unfolding tally_each parts_of added_to
  tally_each_lem [] r = ground arith
  tally_each_lem (s ∷ ss) r = tally_each_lem ss (tally from to now s r) ∙ added_step s ss r

  finish_lem :
      (ss : List UsageSession) (m : ReportedMachine)
      → finish (added ss (row_of m)) ≡ usage_of ss from to now m
  unfolding finish usage_of
  finish_lem ss m = ground arith

  finished :
      (ss : List UsageSession) (ms : List ReportedMachine)
      → map finish (tally_all from to now ss (map row_of ms)) ≡ map (usage_of ss from to now) ms
  finished ss [] = rw (tally_all-nil ss)
  finished ss (m ∷ ms) =
      rw
        (tally_all-cons ss (row_of m) (map row_of ms), finished ss ms, tally_each_lem ss (row_of m))
        (ap (λ u. u ∷ map (usage_of ss from to now) ms) (finish_lem ss m))

module _ (locale_le : Str → Str → Bool) where
  pub summarize_usage_lem :
      (machines : List ReportedMachine) (sessions : List UsageSession) (from to now : Time)
      → IsKeyed machines
      → summarize_usage locale_le machines sessions from to now
        ≡ sort (comes_first locale_le) (map (usage_of sessions from to now) machines)
  unfolding summarize_usage
  summarize_usage_lem machines sessions from to now h =
      rw (
        rows_onto_new [] machines (Always-IsNew machines) h,
        finished from to now sessions machines,
      )

  -- If no two machines have one id, the summary has exactly one row for each machine, also for
  -- those that were not used: with the number of the parts of its sessions that lie in the window,
  -- and with their sum, added up in the order of the sessions in binary64 seconds and rounded at the
  -- end; and the most used machines stand first.
  pub summarize_usage-perm :
      (machines : List ReportedMachine) (sessions : List UsageSession) (from to now : Time)
      → IsKeyed machines
      → let summary = summarize_usage locale_le machines sessions from to now in
        Perm summary (map (usage_of sessions from to now) machines) × IsDescending summary
  summarize_usage-perm machines sessions from to now h =
      rw (summarize_usage_lem machines sessions from to now h) (
        sort-perm locale_le (map (usage_of sessions from to now) machines),
        sort-IsDescending locale_le (map (usage_of sessions from to now) machines),
      )
