-- ===== src/Examples/Server.antt =====
-- The theorems of Server at concrete inputs.
use mathlib.Core.List.{Perm}
use taymna.Common.{
  All, ◌*◌, ◌-◌, ◌≤◌, ◌≡◌, ◌↔◌, ◌||◌, refl, Bool, true, false, none, some, List, [], ◌∷◌, map,
  arith, ltb, leb, if◌then◌else◌, DateTime,
}
use taymna.Common.Equality.{list_beq, nat_eq}
use taymna.Common.Text.{Str, codes}
use taymna.Session.{active, ended, allowed, blocked, advance}
use taymna.Storage.{Credentials}
use taymna.Client.{auth_value, finalized}
use taymna.Client.Connection.{close_outcome}
use taymna.Server.{Time, ok, err, bad_request, conflict, windows}
use taymna.Server.Usage.{UsageSession, ReportedMachine, usable_until, overlap, summarize_usage}
use taymna.Server.Number.{seconds_of, add, math_round}
use taymna.Server.Usage.Sums.{used_of, parts_of, InTurn, used_of-le}
use taymna.Server.Usage.Rows.{usage_of, summarize_usage-perm}
use taymna.Server.Usage.Order.{IsDescending}
use taymna.Server.Usage.Accuracy.{IsModest, IsAccurate, summarize_usage-IsAccurate}
use taymna.Server.Reports.{usage, report, max_range_ms, usage_unfiltered}
use taymna.Server.Sessions.{
  Session, Readings, started, start, extend, end, get_active_session, find_first, is_active_of,
  has_id,
}
use taymna.Server.Sessions.Index.{Statement, OneActive, execute_all, execute_all-OneActive}
use taymna.Server.Sessions.Requests.{Request, request, granted, deadline_refused}
use taymna.Server.Push.{told, Before, request-advance, connect_overtaken}
use taymna.Server.Credentials.{credential_of, credential_of-auth_value}
use taymna.Server.Machines
use taymna.Server.Machines.{
  Machine, EnrollmentToken, Slice, Operation, perform, perform_all, check_token, redeem,
  remove_read, has_usable_credential, to_socket,
}
use taymna.Server.Machines.Removal.{handover, remove_read_overtaken}
use taymna.Server.Machines.Tokens.{enroll_once, enroll_twice}

abbrev always : Str → Str → Bool
always a b = true

abbrev at : Time → DateTime
at t = t * 1000000

abbrev m1 : Str
m1 = codes "m1"

abbrev desk : ReportedMachine
desk = record { id = m1; name = codes "Desk"; platform = windows }

abbrev unused : ReportedMachine
unused = record { id = codes "m2"; name = codes "Hall"; platform = windows }

-- An hour that was ended after a half, and one that runs.
abbrev cut_short : UsageSession
cut_short = record {
  machine_id = m1;
  started_at = 0;
  expires_at = 3600000;
  ended_at = some 1800000;
  status = ended;
}

abbrev runs : UsageSession
runs = record {
  machine_id = m1;
  started_at = 4000000;
  expires_at = 7600000;
  ended_at = none;
  status = active;
}

abbrev sessions : List UsageSession
sessions = cut_short ∷ runs ∷ []

summarize_usage-perm_example :
    let summary = summarize_usage always (desk ∷ unused ∷ []) sessions 600000 5000000 4500000 in
    Perm summary (map (usage_of sessions 600000 5000000 4500000) (desk ∷ unused ∷ []))
    × IsDescending summary
summarize_usage-perm_example =
    summarize_usage-perm always (desk ∷ unused ∷ []) sessions 600000 5000000 4500000
      ((refl, tt), (tt, tt))

modest : All (IsModest sessions 600000 5000000 4500000) (desk ∷ unused ∷ [])
unfolding used_of parts_of usable_until overlap
modest = ((omega arith, omega arith), ((omega arith, omega arith), tt))

summarize_usage-IsAccurate_example :
    All
      (IsAccurate sessions 600000 5000000 4500000)
      (summarize_usage always (desk ∷ unused ∷ []) sessions 600000 5000000 4500000)
summarize_usage-IsAccurate_example =
    summarize_usage-IsAccurate always (desk ∷ unused ∷ []) sessions 600000 5000000 4500000
      ((refl, tt), (tt, tt)) modest

in_turn : InTurn m1 4500000 0 sessions
unfolding usable_until
in_turn = (omega arith, omega arith, (omega arith, omega arith, tt))

-- Half a second in three parts comes to a little less than half a second.
three_parts : math_round (add (add (seconds_of 149) (seconds_of 283)) (seconds_of 68)) ≡ 0
unfolding math_round add seconds_of
three_parts = refl

used_of-le_example : used_of m1 sessions 600000 5000000 4500000 ≤ 5000000 - 600000
used_of-le_example = used_of-le m1 sessions 600000 5000000 4500000 in_turn

usage_unfiltered_example : usage always (desk ∷ []) sessions 2000000 5000000 4500000 ≡ (
    if leb 5000000 2000000 || ltb max_range_ms (5000000 - 2000000)
    then err bad_request
    else ok (report always (desk ∷ []) sessions 2000000 5000000 4500000))
usage_unfiltered_example = usage_unfiltered always (desk ∷ []) sessions 2000000 5000000 4500000

abbrev readings : Readings
readings = record { stale = 1000; stale_stamp = 1000; now = 1001; stamp = 1002 }

abbrev hour : Session
hour = started (codes "s1") m1 1001 1002 60

execute_all-OneActive_example : OneActive (
    execute_all
      (Statement.creating hour ∷ Statement.creating (started (codes "s2") m1 1003 1004 60) ∷ [])
      [])
execute_all-OneActive_example =
    execute_all-OneActive
      (Statement.creating hour ∷ Statement.creating (started (codes "s2") m1 1003 1004 60) ∷ []) []
      (λ machine. omega arith)

hour_started : (request (Request.starting true (codes "s1") m1 60) readings []).1 ≡ ok hour
unfolding start
hour_started = refl

request-advance_example :
    ((advance (told at (none, 0) (some hour) 1005).0 2000000000).1 ≡ allowed)
    ↔ Before at 2000000000 (granted (Request.starting true (codes "s1") m1 60) readings [])
request-advance_example =
    request-advance at (Request.starting true (codes "s1") m1 60) readings [] hour (none, 0) 1005
      2000000000 hour_started (omega arith)

-- An agent connects, and is asked for before the session starts.
nothing_yet : (get_active_session m1 readings []).1 ≡ none
unfolding get_active_session
nothing_yet = refl

hour_after :
    (start true (codes "s1") m1 60 readings (get_active_session m1 readings []).0).1 ≡ ok hour
unfolding start get_active_session
hour_after = refl

connect_overtaken_example :
    let behind = told at (told at (none, 0) (some hour) 1003) none 1005 in
    let t' = (start true (codes "s1") m1 60 readings (get_active_session m1 readings []).0).0 in
    ((advance behind.0 2000000000).1 ≡ blocked) × (find_first (is_active_of m1) t' ≡ some hour)
connect_overtaken_example =
    connect_overtaken at (codes "s1") m1 60 readings readings [] hour (none, 0) 1003 1005 2000000000
      nothing_yet hour_after (omega arith) (omega arith)

abbrev last_moment : Readings
last_moment = record readings { stale = 3601001 }

hour_found : find_first (has_id (codes "s1")) (hour ∷ []) ≡ some hour
unfolding find_first
hour_found = refl

deadline_refused_example :
    ((end (codes "s1") last_moment (hour ∷ [])).1 ≡ err conflict)
    × ((extend (codes "s1") 5 last_moment (hour ∷ [])).1 ≡ err conflict)
    × ((start true (codes "s2") m1 5 last_moment (hour ∷ [])).1 ≡ err conflict)
deadline_refused_example =
    deadline_refused (codes "s1") (codes "s2") 5 last_moment (hour ∷ []) hour hour_found refl
      (omega arith)

abbrev credentials : Credentials
credentials = record {
  server_url = codes "https://taymna.example";
  machine_id = m1;
  machine_secret = codes "a.b";
}

credential_of-auth_value_example : credential_of (auth_value credentials) ≡ some (m1, codes "a.b")
credential_of-auth_value_example =
    credential_of-auth_value credentials (omega arith) (λ e. ground arith) (λ e. ground arith)

-- A hash that is the secret itself.
abbrev verify : Str → Str → Bool
verify hash secret = list_beq hash secret

abbrev enrolled : Machine
enrolled = record {
  credential_hash = some (codes "x");
  credential_revoked_at = none;
  decommission_requested_at = some 50;
  last_seen_at = none;
}

abbrev token : EnrollmentToken
token = record { id = codes "t1"; token_hash = codes "y"; expires_at = 900; used_at = none }

abbrev slice : Slice
slice = record { row = some enrolled; tokens = token ∷ []; connected = true }

abbrev empty_row : Machine
empty_row = record enrolled { credential_hash = none; decommission_requested_at = none }

abbrev fresh : Slice
fresh = record slice { row = some empty_row; connected = false }

handover_example :
    let (told, first) = perform verify (Operation.connect (codes "x") 60) slice in
    let (removed, last) = perform verify Operation.acknowledge told in
    let refused =
      (perform verify
        (Operation.connect (codes "x") 70)
        (perform_all verify (Operation.heartbeat 65 ∷ []) removed)).1 in
    (first ≡ Machines.close 4000 ∷ Machines.decommission ∷ [])
    × (removed.row ≡ none)
    × (last ≡ Machines.close 4003 ∷ Machines.machine_removed ∷ [])
    × (close_outcome false (some 4003) ≡ finalized)
    × (refused ≡ Machines.reject 4001 ∷ [])
    × (close_outcome true (some 4001) ≡ finalized)
handover_example =
    handover verify slice (codes "x") 60 70 (Operation.heartbeat 65 ∷ []) false refl refl

remove_read_overtaken_example :
    let enrolled = (redeem token (codes "z") 60 fresh).0 in
    let (after, sent) = remove_read empty_row 70 enrolled in
    ((n : Machine) × (enrolled.row ≡ some n) × (has_usable_credential n ≡ true))
    × (after.row ≡ none)
    × (sent ≡ Machines.machine_removed ∷ [])
remove_read_overtaken_example =
    remove_read_overtaken verify fresh empty_row token (codes "z") 70 60 refl refl

token_good : check_token verify (codes "t1") (codes "y") 60 fresh ≡ ok token
unfolding check_token
token_good = refl

enroll_once_example :
    let after =
      perform_all verify
        (Operation.heartbeat 65 ∷ [])
        (perform verify (Operation.enroll (codes "t1") (codes "y") (codes "z") 60) fresh).0 in
    check_token verify (codes "t1") (codes "y") 70 after ≡ err bad_request
enroll_once_example =
    enroll_once verify (codes "t1") (codes "y") (codes "z") (codes "y") 60 70
      (Operation.heartbeat 65 ∷ []) fresh token token_good (tt, tt)

enroll_twice_example :
    let after = (redeem token (codes "w") 62 (redeem token (codes "z") 61 fresh).0).0 in
    (token ≡ token)
    × ((n : Machine) × (after.row ≡ some n)
        × (n.credential_hash ≡ some (codes "w"))
        × (has_usable_credential n ≡ true))
enroll_twice_example =
    enroll_twice verify (codes "t1") (codes "y") (codes "z") (codes "w") 60 61 60 62 fresh empty_row
      token token refl token_good token_good
