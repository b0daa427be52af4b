-- ===== src/Enroll.antt =====
-- agent/src/main.rs, `enroll`: how a machine becomes managed. What the server answers is an input.
pub mod Managed
use taymna.Common.{Bool, true, false, Option, none, some, [], ◌∷◌, ◌++◌, DateTime, if◌then◌else◌}
use taymna.Common.Text.{Str, codes, trim_end_matches}
use taymna.Storage
use taymna.Storage.{Credentials, AgentState, ErrorKind, Disk, SaveIo, load_for_enroll}
use taymna.External.{External}

pub record EnrollResponse : Type 0 where
  pub machine_id : Str
  pub machine_secret : Str

-- How the request ends: it is not answered, or with a status and a body if that can be read.
pub data Answer : Type 0 where
  unanswered : Answer
  answered : (is_success : Bool) (status : Str) (body : Option Str) → Answer

pub data EnrollError : Type 0 where
  unreachable : (server : Str) → EnrollError
  rejected : (server status reason : Str) → EnrollError
  unreadable : EnrollError
  storage : ErrorKind → EnrollError

pub data Enrolled : Type 0 where
  ok : (machine_id : Str) → Enrolled
  err : EnrollError → Enrolled

-- The address that the token is posted to.
unfoldable pub enroll_url : Str → Str
unfolding trim_end_matches
enroll_url server = trim_end_matches b'/' server ++ codes "/machines/enroll"

abbrev unwrap_or_default : Option Str → Str
unwrap_or_default none = []
unwrap_or_default (some s) = s

-- `message_of` is the `message` of a JSON body, if it has one that is a string.
abbrev reason_of : (Str → Option Str) → Str → Str
reason_of message_of body = elim (message_of body) [ none ↦ body | some message ↦ message ]

-- What enrollment makes of the state that it loaded.
abbrev pub enrolled_state : AgentState → Str → EnrollResponse → AgentState
enrolled_state state server r = record state {
  credentials = some (record {
    server_url = server;
    machine_id = r.machine_id;
    machine_secret = r.machine_secret;
  });
  decommissioned = false;
  session = none;
}

abbrev pub saved : Str → Disk × Storage.Result (Unit {0}) → Disk × Enrolled
saved id (disk, Storage.ok _) = (disk, ok id)
saved id (disk, Storage.err e) = (disk, err (storage e))

-- `parse` reads the response's JSON. `read` and `rename` are the failures of `load_for_enroll`'s
-- calls, `io` is how the save ends, and `now` is what the clock reads if a default state is built.
module _ (x : External) (message_of : Str → Option Str) (parse : Str → Option EnrollResponse) where
  abbrev pub save_enrolled :
      Str → EnrollResponse → SaveIo → Disk × Storage.Result AgentState → Disk × Enrolled
  save_enrolled server r io (disk, Storage.err e) = (disk, err (storage e))
  save_enrolled server r io (disk, Storage.ok state) =
      saved r.machine_id (Storage.save x.to_json disk (enrolled_state state server r) io)

  abbrev pub accepted :
      Disk
      → Str
      → Option EnrollResponse
      → Option ErrorKind
      → Option ErrorKind
      → DateTime
      → SaveIo
      → Disk × Enrolled
  accepted disk server none read rename now io = (disk, err unreadable)
  accepted disk server (some r) read rename now io =
      save_enrolled server r io (load_for_enroll x.from_json disk read rename now)

  abbrev parsed : Option Str → Option EnrollResponse
  parsed none = none
  parsed (some body) = parse body

  unfoldable pub enroll :
      Disk
      → Str
      → Answer
      → Option ErrorKind
      → Option ErrorKind
      → DateTime
      → SaveIo
      → Disk × Enrolled
  unfolding Storage.save load_for_enroll
  enroll disk server unanswered read rename now io = (disk, err (unreachable server))
  enroll disk server (answered is_success status body) read rename now io =
      if is_success
      then accepted disk server (parsed body) read rename now io
      else (disk, err (rejected server status (reason_of message_of (unwrap_or_default body))))
