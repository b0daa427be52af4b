-- ===== src/UnitTests/Storage.antt =====
-- agent/src/storage.rs, `mod tests`: the tests of `Store`, on a directory that holds nothing. What
-- serde makes of a file without the field `decommissioned` is its own.
use taymna.Common.{◌≡◌, refl, true, Option, none, some, arith, DateTime}
use taymna.Common.Text.{Str}
use taymna.Session.{SessionSnapshot}
use taymna.Storage.{
  AgentState, default, invalid_data, Result, ok, err, Disk, written, SaveIo, save, load,
  load_for_enroll,
}
use taymna.Storage.Atomic.{RoundTrips}

abbrev empty : Disk
empty = record { state_json = none; state_json_tmp = none; state_json_corrupt = none }

abbrev fine : SaveIo
fine = record { write = written; harden = none; rename = none }

module _ (to_json : AgentState → Str) (from_json : Str → Option AgentState) where
  -- The result of saving, and what loading then gives.
  state_round_trips : AgentState → DateTime → Result (Unit {0}) × Result AgentState
  unfolding save load
  state_round_trips state now =
      let (disk, result) = save to_json empty state fine in (result, load from_json disk none now)

  state_round_trips_lem :
      (law : RoundTrips to_json from_json) (state : AgentState) (now : DateTime)
      → state_round_trips state now ≡ (ok tt, ok state)
  unfolding state_round_trips
  state_round_trips_lem law state now = ground (arith, law state)

  -- The same for a state that is decommissioned, of which the flag is read.
  decommissioned_flag_round_trips : AgentState → DateTime → Result AgentState
  unfolding save load
  decommissioned_flag_round_trips state now =
      load from_json
        (save to_json empty (record state { decommissioned = true; session = none }) fine).0 none
        now

  decommissioned_flag_round_trips_lem :
      (law : RoundTrips to_json from_json) (state : AgentState) (now : DateTime)
      → decommissioned_flag_round_trips state now
        ≡ ok (record state { decommissioned = true; session = none })
  unfolding decommissioned_flag_round_trips
  decommissioned_flag_round_trips_lem law state now =
      ground (arith, law (record state { decommissioned = true; session = none }))

  -- A default state with a session is saved, and read by the next process.
  restart_recovery : SessionSnapshot → DateTime → DateTime → Result AgentState
  unfolding save load default
  restart_recovery session now later =
      load from_json (save to_json empty (record (default now) { session = some session }) fine).0
        none later

  restart_recovery_lem :
      (law : RoundTrips to_json from_json) (session : SessionSnapshot) (now later : DateTime)
      → restart_recovery session now later ≡ ok (record (default now) { session = some session })
  unfolding restart_recovery default
  restart_recovery_lem law session now later =
      ground (arith, law (record (default now) { session = some session }))

  loading_with_no_file : DateTime → Result AgentState
  unfolding load default
  loading_with_no_file now = load from_json empty none now

  loading_with_no_file_lem : (now : DateTime) → loading_with_no_file now ≡ ok (default now)
  unfolding loading_with_no_file default
  loading_with_no_file_lem now = refl

  -- `contents` is a text that does not parse.
  module _ (contents : Str) (corrupt : from_json contents ≡ none) where
    abbrev corrupt_disk : Disk
    corrupt_disk = record empty { state_json = some contents }

    corrupt_file_is_an_error : DateTime → Result AgentState
    unfolding load
    corrupt_file_is_an_error now = load from_json corrupt_disk none now

    corrupt_file_is_an_error_lem :
        (now : DateTime) → corrupt_file_is_an_error now ≡ err invalid_data
    unfolding corrupt_file_is_an_error
    corrupt_file_is_an_error_lem now = ground arith

    enroll_recovers : DateTime → Disk × Result AgentState
    unfolding load_for_enroll default
    enroll_recovers now = load_for_enroll from_json corrupt_disk none none now

    enroll_recovers_lem :
        (now : DateTime)
        → enroll_recovers now
          ≡ (record empty { state_json_corrupt = some contents }, ok (default now))
    unfolding enroll_recovers default
    enroll_recovers_lem now = ground arith
