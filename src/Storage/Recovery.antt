-- ===== src/Storage/Recovery.antt =====
-- What loading makes of a missing or unreadable `state.json`.
use taymna.Common.{◌≡◌, ◌⊎◌, ◌≢◌, Option, none, some, arith, DateTime}
use taymna.Common.Text.{Str}
use taymna.Storage.{
  AgentState, ErrorKind, not_found, invalid_data, default, ok, err, Disk, load, load_for_enroll,
}

module _ (from_json : Str → Option AgentState) where
  -- The agent starts from the blank state only where there is no file (or the system says so), and
  -- otherwise from exactly what the file parses to: a file that does not parse is an error.
  pub load-ok :
      (disk : Disk) (read : Option ErrorKind) (now : DateTime) (state : AgentState)
      → load from_json disk read now ≡ ok state
      → (((read ≡ some not_found) ⊎ ((read ≡ none) × (disk.state_json ≡ none)))
          × (state ≡ default now))
        ⊎ ((contents : Str) × (read ≡ none)
            × (disk.state_json ≡ some contents)
            × (from_json contents ≡ some state))
  unfolding load
  load-ok disk read now state h = ground arith

  -- Enrollment is never stopped by a file that does not parse: it proceeds from the blank state,
  -- and the unreadable contents are then either set aside unchanged or still where they were. In
  -- every other case it loads, fails and leaves the files exactly as the run path does.
  pub load_for_enroll_lem :
      (disk : Disk) (read rename : Option ErrorKind) (now : DateTime)
      → let (disk', result) = load_for_enroll from_json disk read rename now in
        ((load from_json disk read now ≡ err invalid_data)
          × (result ≡ ok (default now))
          × ((disk' ≡ disk)
              ⊎ ((disk'.state_json ≡ none) × (disk'.state_json_corrupt ≡ disk.state_json))))
        ⊎ ((load from_json disk read now ≢ err invalid_data)
            × (result ≡ load from_json disk read now)
            × (disk' ≡ disk))
  unfolding load_for_enroll
  load_for_enroll_lem disk read rename now = ground arith
