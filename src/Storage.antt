-- ===== src/Storage.antt =====
-- agent/src/storage.rs: the state that the agent keeps on disk, and `Store`. The three files of the
-- state directory are a record; each call of the file system takes the failure that befalls it, or
-- none. `ClockGuard` is in Clock.antt.
pub mod Atomic
pub mod Permissions
mod Place
pub mod Recovery
use taymna.Common.{Bool, false, Option, none, some, DateTime}
use taymna.Common.Text.{Str}
use taymna.Session.{SessionSnapshot}

pub record Credentials : Type 0 where
  pub server_url : Str
  pub machine_id : Str
  pub machine_secret : Str

pub record AgentState : Type 0 where
  pub credentials : Option Credentials
  pub decommissioned : Bool
  pub session : Option SessionSnapshot
  pub last_applied_at : DateTime
  pub trusted_high_water_mark : DateTime

-- `AgentState::default`, where the clock reads `now`.
unfoldable pub default : DateTime → AgentState
default now = record {
  credentials = none;
  decommissioned = false;
  session = none;
  last_applied_at = now;
  trusted_high_water_mark = now;
}

-- `std::io::ErrorKind`; `other` is every kind that the code does not name.
pub data ErrorKind : Type 0 where
  not_found invalid_data other : ErrorKind

pub data Result {ℓ} (A : Type ℓ) : Type ℓ where
  ok : A → Result A
  err : ErrorKind → Result A

infixl 5 ◌>>=◌
abbrev pub ◌>>=◌ {ℓ κ} : {A : Type ℓ} {B : Type κ} → Result A → (A → Result B) → Result B
ok a >>= f = f a
err e >>= f = err e

-- What the three files of the state directory hold.
pub record Disk : Type 0 where
  pub state_json : Option Str
  pub state_json_tmp : Option Str
  pub state_json_corrupt : Option Str

-- How the three calls of `save` end. A write that fails, or a crash during it, leaves anything at
-- all in the file that it writes, or no file.
pub data Write : Type 0 where
  written : Write
  write_failed : ErrorKind → Option Str → Write

pub record SaveIo : Type 0 where
  pub write : Write
  pub harden : Option ErrorKind
  pub rename : Option ErrorKind

abbrev rename_tmp : Disk → Option ErrorKind → Disk × Result (Unit {0})
rename_tmp disk (some e) = (disk, err e)
rename_tmp disk none =
    (record disk { state_json = disk.state_json_tmp; state_json_tmp = none }, ok tt)

abbrev harden_then_rename : Disk → Option ErrorKind → Option ErrorKind → Disk × Result (Unit {0})
harden_then_rename disk (some e) rename = (disk, err e)
harden_then_rename disk none rename = rename_tmp disk rename

abbrev save_contents : Disk → Str → Write → SaveIo → Disk × Result (Unit {0})
save_contents disk contents (write_failed e partial) io =
    (record disk { state_json_tmp = partial }, err e)
save_contents disk contents written io =
    harden_then_rename (record disk { state_json_tmp = some contents }) io.harden io.rename

-- `fs::read_to_string` of `state.json`.
abbrev pub read_to_string : Option Str → Option ErrorKind → Result Str
read_to_string contents (some e) = err e
read_to_string none none = err not_found
read_to_string (some contents) none = ok contents

-- `fs::rename` of `state.json` to `state.json.corrupt`, whose failure is ignored.
abbrev pub set_aside : Disk → Option Str → Option ErrorKind → Disk
set_aside disk (some contents) none = record disk {
  state_json = none;
  state_json_corrupt = some contents;
}
set_aside disk _ _ = disk

-- `to_json` and `from_json` are serde_json's `to_string_pretty` and `from_str` at `AgentState`.
module _ (to_json : AgentState → Str) where
  unfoldable pub save : Disk → AgentState → SaveIo → Disk × Result (Unit {0})
  save disk state io = save_contents disk (to_json state) io.write io

module _ (from_json : Str → Option AgentState) where
  abbrev parse : Str → Result AgentState
  parse contents = elim (from_json contents) [ none ↦ err invalid_data | some state ↦ ok state ]

  abbrev pub loaded : Result Str → DateTime → Result AgentState
  loaded (ok contents) now = parse contents
  loaded (err not_found) now = ok (default now)
  loaded (err e) now = err e

  -- `now` is what `Utc::now()` reads if the default is built.
  unfoldable pub load : Disk → Option ErrorKind → DateTime → Result AgentState
  unfolding default
  load disk read now = loaded (read_to_string disk.state_json read) now

  abbrev recover : Disk → Result AgentState → Option ErrorKind → DateTime → Disk × Result AgentState
  recover disk (ok state) rename now = (disk, ok state)
  recover disk (err invalid_data) rename now =
      (set_aside disk disk.state_json rename, ok (default now))
  recover disk (err e) rename now = (disk, err e)

  unfoldable pub load_for_enroll :
      Disk → Option ErrorKind → Option ErrorKind → DateTime → Disk × Result AgentState
  unfolding load
  load_for_enroll disk read rename now = recover disk (load disk read now) rename now
