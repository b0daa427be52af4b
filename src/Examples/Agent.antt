-- ===== src/Examples/Agent.antt =====
-- The theorems of Agent at concrete inputs.
use taymna.Common.{◌≡◌, ◌↔◌, refl, arith, true, false, none, some, List, [], ◌∷◌, All}
use taymna.Common.Text.{codes}
use taymna.Session.{SessionSnapshot, active, ended}
use taymna.Session.Enforcement.{IsLive}
use taymna.Clock
use taymna.Clock.{Reading}
use taymna.Storage.{Credentials, AgentState, other, Disk, written, SaveIo}
use taymna.Client.{ServerEvent}
use taymna.Agent.{Agent, Input, event, tick}
use taymna.Agent.Rounds.{on_tick}
use taymna.Agent.Loop.{run_loop}
use taymna.Agent.Acknowledge.{AcksDurable, run_loop-AcksDurable}
use taymna.Agent.Enforcement.{locked_after, on_tick_locks_iff}
use taymna.Agent.Offline.{IsOver, NeverUnlocks}
use taymna.Agent.Restarts.{Lifetime, IsOverOnDisk, live_all, live_all-NeverUnlocks}
use taymna.Agent.HighWaterMark.{Advances, run_loop-Advances}
use taymna.Examples.Codec.{write_state, state-RoundTrips, external}

abbrev an_hour : SessionSnapshot
an_hour = record {
  id = codes "s1";
  started_at = 1000;
  expires_at = 4600;
  status = active;
  updated_at = 1000;
}

abbrev credentials : Credentials
credentials = record {
  server_url = codes "https://taymna.example";
  machine_id = codes "m1";
  machine_secret = codes "secret";
}

abbrev managed : AgentState
managed = record {
  credentials = some credentials;
  decommissioned = false;
  session = some an_hour;
  last_applied_at = 1000;
  trusted_high_water_mark = 2000;
}

abbrev released : AgentState
released = record managed { decommissioned = true; session = none }

abbrev disk : Disk
disk = record { state_json = none; state_json_tmp = none; state_json_corrupt = none }

abbrev agent : Agent
agent = record {
  disk = disk;
  state = managed;
  clock = record { high_water_mark = 2000; anchor = 0 };
  currently_blocked = true;
  warnings = record { key = none; fired = none; last_seen = none; final_visible = false };
  decommissioned = false;
  events_closed = false;
}

-- An agent that found its session expired.
abbrev pub expired_agent : Agent
expired_agent = record agent {
  state = record managed { trusted_high_water_mark = 5000 };
  clock = record { high_water_mark = 5000; anchor = 0 };
}

abbrev released_agent : Agent
released_agent = record agent { state = released; decommissioned = true }

abbrev fine : SaveIo
fine = record { write = written; harden = none; rename = none }

abbrev pub full : SaveIo
full = record { write = written; harden = none; rename = some other }

abbrev pub reading : Reading
reading = record { os_now = 3000; elapsed_at = 10; anchored_at = 10 }

-- A tick, the end of the session, and a decommission.
abbrev inputs : List Input
inputs =
    tick reading fine
    ∷ event (some (ServerEvent.session_state (some (record an_hour { status = ended })) 3500)) 20
        fine
    ∷ event (some ServerEvent.decommission) 30 fine
    ∷ tick reading full
    ∷ []

abbrev offline : List Input
offline =
    tick reading fine ∷ event (some (ServerEvent.server_time 6000)) 20 fine ∷ tick reading full ∷ []

on_tick_locks_iff_example :
    (locked_after true (on_tick external agent reading full).effects ≡ false)
    ↔ IsLive (some an_hour) (Clock.now some agent.clock reading).1
on_tick_locks_iff_example = on_tick_locks_iff external agent reading full

run_loop-AcksDurable_example : AcksDurable false (run_loop external agent inputs).effects
run_loop-AcksDurable_example =
    run_loop-AcksDurable external false agent inputs (refl, λ e. ground arith)

expired_agent-IsOver : IsOver expired_agent.state.session 5000
expired_agent-IsOver e = omega arith

-- Its session expired, as the file says; the clock is set back before the second life, and the
-- third cannot read the file.
abbrev expired_disk : Disk
expired_disk = record disk { state_json = some (write_state expired_agent.state) }

expired_on_disk : IsOverOnDisk external expired_disk
expired_on_disk = rw (state-RoundTrips expired_agent.state) expired_agent-IsOver

abbrev lives : List Lifetime
lives =
    record { read = none; now = 9000; instant = 0; inputs = offline }
    ∷ record { read = none; now = 100; instant = 7; inputs = tick reading full ∷ [] }
    ∷ record { read = some other; now = 200; instant = 8; inputs = [] }
    ∷ []

live_all-NeverUnlocks_example : All NeverUnlocks (live_all external expired_disk lives)
live_all-NeverUnlocks_example =
    live_all-NeverUnlocks external state-RoundTrips expired_disk lives expired_on_disk
      ((tt, (tt, (tt, tt))), ((tt, tt), (tt, tt)))

run_loop-Advances_example : Advances agent (run_loop external agent inputs)
run_loop-Advances_example = run_loop-Advances external agent inputs refl
