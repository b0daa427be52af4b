-- ===== src/Examples/Storage.antt =====
-- The theorems of Storage at concrete inputs.
use taymna.Common.{ℕ, ◌⊎◌, ◌≡◌, refl, true, false, Option, none, some, List, [], ◌∷◌}
use taymna.Common.Text.{codes}
use taymna.Storage.{
  AgentState, ErrorKind, other, default, ok, Disk, written, write_failed, SaveIo, load,
}
use taymna.Storage.Atomic.{last_saved, save_all, load-save_all}
use taymna.Storage.Permissions.{owner_only, Modes, save_all_modes, save_all-owner_only}
use taymna.Examples.Codec.{write_state, read_state, state-RoundTrips}

abbrev empty : Disk
empty = record { state_json = none; state_json_tmp = none; state_json_corrupt = none }

abbrev garbage : Disk
garbage = record empty { state_json = some (codes "{") }

abbrev state : AgentState
state = record {
  credentials = none;
  decommissioned = false;
  session = none;
  last_applied_at = 7;
  trusted_high_water_mark = 7;
}

abbrev fine : SaveIo
fine = record { write = written; harden = none; rename = none }

-- A crash that leaves half a file behind.
abbrev crash : SaveIo
crash = record { write = write_failed other (some (codes "{")); harden = none; rename = none }

abbrev saves : List (AgentState × SaveIo)
saves = (state, fine) ∷ (default 9, crash) ∷ []

load-save_all_example :
    load read_state (save_all write_state garbage saves) none 9
    ≡ elim (last_saved none saves) [ none ↦ load read_state garbage none 9 | some state ↦ ok state ]
load-save_all_example = load-save_all write_state read_state state-RoundTrips garbage saves 9

-- What a umask of 0o022 leaves of 0o666.
abbrev readable_by_all : ℕ
readable_by_all = 420

abbrev modes : Modes
modes = record { state_json = readable_by_all; state_json_tmp = readable_by_all }

save_all-owner_only_example :
    let contents = (save_all write_state garbage saves).state_json in
    let mode = (save_all_modes true readable_by_all write_state garbage saves modes).state_json in
    ((s : AgentState) × (last_saved none saves ≡ some s)
      × (contents ≡ some (write_state s))
      × (mode ≡ owner_only))
    ⊎ ((last_saved none saves ≡ none) × (contents ≡ garbage.state_json) × (mode ≡ readable_by_all))
save_all-owner_only_example = save_all-owner_only readable_by_all write_state garbage saves modes

abbrev no_failure : Option ErrorKind
no_failure = none

abbrev stored : Disk
stored = record empty { state_json = some (write_state state) }

load-stored : load read_state stored no_failure 9 ≡ ok state
unfolding load write_state read_state
load-stored = refl
