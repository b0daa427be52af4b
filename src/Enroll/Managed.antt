-- ===== src/Enroll/Managed.antt =====
-- What a successful enrollment leaves on disk, and what a refused one does not touch.
use taymna.Common.{
  ◌≡◌, ◌⊎◌, refl, true, false, Option, none, some, [], arith, DateTime, Instant, inl, inr,
  Option-cases,
}
use taymna.Common.Text.{Str}
use taymna.Storage
use taymna.Clock
use taymna.Warning
use taymna.Storage.{
  Credentials, AgentState, ErrorKind, Disk, SaveIo, load, load_for_enroll, default, invalid_data,
}
use taymna.Storage.Atomic.{RoundTrips, save_atomic}
use taymna.External.{External}
use taymna.Agent.{Agent}
use taymna.Agent.Loop.{entered, start}
use taymna.Enroll.{
  EnrollResponse, Answer, unanswered, answered, EnrollError, ok, err, enroll, enrolled_state,
  save_enrolled,
}

module _ (x : External) (message_of : Str → Option Str) (parse : Str → Option EnrollResponse) where
  save_enrolled-ok :
      (server : Str) (r : EnrollResponse) (io : SaveIo) (p : Disk × Storage.Result AgentState)
      (id : Str)
      → (save_enrolled x message_of parse server r io p).1 ≡ ok id
      → (state : AgentState) × (r.machine_id ≡ id)
        × (p.1 ≡ Storage.ok state)
        × ((save_enrolled x message_of parse server r io p).0.state_json
            ≡ some (x.to_json (enrolled_state state server r)))
  save_enrolled-ok server r io (disk, Storage.err e) id h = absurd (ground arith)
  save_enrolled-ok server r io (disk, Storage.ok state) id h = (
    state,
    ground arith,
    refl,
    ground (arith, save_atomic x.to_json disk (enrolled_state state server r) io),
  )

  enroll-ok :
      (disk : Disk) (server : Str) (answer : Answer) (read rename : Option ErrorKind)
      (now : DateTime) (io : SaveIo) (id : Str)
      → (enroll x message_of parse disk server answer read rename now io).1 ≡ ok id
      → (state : AgentState) × (r : EnrollResponse) × (r.machine_id ≡ id)
        × ((load_for_enroll x.from_json disk read rename now).1 ≡ Storage.ok state)
        × ((enroll x message_of parse disk server answer read rename now io).0.state_json
            ≡ some (x.to_json (enrolled_state state server r)))
  unfolding enroll
  enroll-ok disk server unanswered read rename now io id h = absurd (ground arith)
  enroll-ok disk server (answered false status body) read rename now io id h = absurd (ground arith)
  enroll-ok disk server (answered true status none) read rename now io id h = absurd (ground arith)
  enroll-ok disk server (answered true status (some body)) read rename now io id h =
      elim (Option-cases (parse body)) [
        | inl n ↦ absurd (ground arith)
        | inr (r, e) ↦
            let p = load_for_enroll x.from_json disk read rename now in
            let (state, same, loaded, stored) = save_enrolled-ok server r io p id (ground arith) in
            (state, r, same, loaded, ground arith)
      ]

  -- If a state parses back from its serialisation, then after a successful enrollment the machine
  -- is managed: an agent that starts on what is then on disk enters the loop with the new server
  -- and machine id, not decommissioned, without a session, with nothing to acknowledge, and with
  -- the high-water mark of the state that enrollment loaded or made.
  pub start-enroll :
      RoundTrips x.to_json x.from_json
      → (disk : Disk) (server : Str) (answer : Answer) (read rename : Option ErrorKind)
        (now later : DateTime) (instant : Instant) (io : SaveIo) (id : Str)
      → (enroll x message_of parse disk server answer read rename now io).1 ≡ ok id
      → (a : Agent) × (c : Credentials) × (state : AgentState) × (start x
            (enroll x message_of parse disk server answer read rename now io).0
            none
            later
            instant
          ≡ entered c a [])
        × (c.server_url ≡ server)
        × (c.machine_id ≡ id)
        × (a.decommissioned ≡ false)
        × (a.state.session ≡ none)
        × ((load_for_enroll x.from_json disk read rename now).1 ≡ Storage.ok state)
        × (a.clock.high_water_mark ≡ state.trusted_high_water_mark)
  unfolding start
  start-enroll law disk server answer read rename now later instant io id h =
      let (state, r, same, loaded, stored) = enroll-ok disk server answer read rename now io id h in
      let c : Credentials = record {
        server_url = server;
        machine_id = r.machine_id;
        machine_secret = r.machine_secret;
      } in
      let a : Agent = record {
        disk = (enroll x message_of parse disk server answer read rename now io).0;
        state = enrolled_state state server r;
        clock = Clock.new state.trusted_high_water_mark instant;
        currently_blocked = true;
        warnings = Warning.new;
        decommissioned = false;
        events_closed = false;
      } in
      (
        a,
        c,
        state,
        ground (arith, law (enrolled_state state server r)),
        refl,
        same,
        refl,
        refl,
        loaded,
        refl,
      )

  -- An enrollment that the server does not answer, or answers with a status that is not a success,
  -- fails and changes nothing on disk.
  pub enroll_refused :
      (disk : Disk) (server : Str) (answer : Answer) (read rename : Option ErrorKind)
      (now : DateTime) (io : SaveIo)
      → (answer ≡ unanswered)
        ⊎ ((status : Str) × (body : Option Str) × (answer ≡ answered false status body))
      → let (disk', result) = enroll x message_of parse disk server answer read rename now io in
        (disk' ≡ disk) × ((e : EnrollError) × (result ≡ err e))
  unfolding enroll
  enroll_refused disk server unanswered read rename now io h = (refl, (_, refl))
  enroll_refused disk server (answered true status body) read rename now io h =
      absurd (ground arith)
  enroll_refused disk server (answered false status body) read rename now io h = (refl, (_, refl))
