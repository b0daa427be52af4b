-- ===== src/Server/Push.antt =====
-- api/src/modules/sessions/sessions.service.ts, `toDto` and `pushSessionUpdate`, and the message of
-- api/src/modules/realtime/realtime.gateway.ts to an agent that connects, with what
-- agent/src/client.rs and agent/src/session.rs make of them.
use taymna.Common.{ℕ, ◌<◌, ◌≡◌, ◌↔◌, true, Option, none, some, arith, DateTime}
use taymna.Common.Text.{Str}
use taymna.Session.{SessionSnapshot, active, allowed, blocked, advance, apply_server_message}
use taymna.Session.Enforcement.{advance-allowed_iff}
use taymna.Session.Messages.{Held, receive}
use taymna.Client.{message_time}
use taymna.Server.{Time, ok}
use taymna.Server.Sessions.Requests.{
  Request, request, granted, IsGranted, request-IsGranted, start-find_first,
}
use taymna.Server.Sessions.{
  Session, Table, Readings, is_active_of, find_first, get_active_session, start,
}

-- `at` is the instant that the agent reads in a `toISOString`.
module _ (at : Time → DateTime) where
  abbrev pub to_dto : Session → SessionSnapshot
  to_dto s = record {
    id = s.id;
    started_at = at s.started_at;
    expires_at = at s.expires_at;
    status = s.status;
    updated_at = at s.updated_at;
  }

  -- What an agent holds behind a message that carries a session, or none.
  abbrev pub told : Held → Option Session → Time → Held
  told held none server_time = receive held (none, message_time none (at server_time))
  told held (some s) server_time =
      receive held (some (to_dto s), message_time (some (to_dto s)) (at server_time))

  told_fresh :
      (held : Held) (s : Session) (server_time : Time)
      → held.1 < at s.updated_at
      → (told held (some s) server_time).0 ≡ some (to_dto s)
  unfolding receive apply_server_message
  told_fresh held s server_time h = ground arith

  told-allowed :
      (held : Held) (s : Session) (server_time : Time) (now : DateTime)
      → held.1 < at s.updated_at
      → ((advance (told held (some s) server_time).0 now).1 ≡ allowed)
        ↔ ((s.status ≡ active) × (now < at s.expires_at))
  told-allowed held s server_time now h =
      rw (told_fresh held s server_time h) (advance-allowed_iff (some (to_dto s)) now)

  -- The machine is granted up to an instant, or not at all.
  abbrev pub Before : DateTime → Option Time → Type 0
  Before now none = ⊥
  Before now (some until) = now < at until

  granted-allows :
      (until : Option Time) (held : Held) (s : Session) (stamp server_time : Time) (now : DateTime)
      → IsGranted s stamp until
      → held.1 < at stamp
      → ((advance (told held (some s) server_time).0 now).1 ≡ allowed) ↔ Before now until
  granted-allows none held s stamp server_time now (e, n) h =
      let fresh = told-allowed held s server_time now (rw (e) h) in
      (λ k. n (fresh.0 k).0, λ k. absurd k)
  granted-allows (some until) held s stamp server_time now (e, a, d) h =
      let fresh = told-allowed held s server_time now (rw (e) h) in
      (λ k. rw (← d) (fresh.0 k).1, λ k. fresh.1 (a, rw (d) k))

  -- What the operator asks for is what the agent enforces: when a request about a session has
  -- succeeded and its push reaches an agent that has applied nothing as new, the agent allows the
  -- machine, after a start, exactly until the minutes that were asked for have gone by; after an
  -- extension, exactly until those minutes after the deadline that was; and after an end not at all.
  pub request-advance :
      (q : Request) (r : Readings) (t : Table) (s : Session) (held : Held) (server_time : Time)
      (now : DateTime)
      → (request q r t).1 ≡ ok s
      → held.1 < at r.stamp
      → ((advance (told held (some s) server_time).0 now).1 ≡ allowed) ↔ Before now (granted q r t)
  request-advance q r t s held server_time now success h =
      granted-allows (granted q r t) held s r.stamp server_time now
        (request-IsGranted q r t s success) h

  told_nothing :
      (held : Held) (server_time : Time)
      → held.1 < at server_time
      → (told held none server_time).0 ≡ none
  unfolding receive apply_server_message
  told_nothing held server_time h = ground arith

  told_last :
      (held : Held) (s : Session) (server_time : Time)
      → held.1 < at s.updated_at
      → (told held (some s) server_time).1 ≡ at s.updated_at
  unfolding receive apply_server_message
  told_last held s server_time h = ground arith

  -- The gateway asks for the active session of an agent that connects, and stamps the answer when it
  -- sends it. If in between a session is started and pushed, and the answer, that there is none, is
  -- stamped later than that session, the agent ends up without a session and blocks at every
  -- instant, while the table has the session as the machine's active one.
  pub connect_overtaken :
      (id machine : Str) (minutes : ℕ) (asked r : Readings) (t : Table) (s : Session) (held : Held)
      (pushed sent : Time) (now : DateTime)
      → (get_active_session machine asked t).1 ≡ none
      → (start true id machine minutes r (get_active_session machine asked t).0).1 ≡ ok s
      → held.1 < at s.updated_at
      → at s.updated_at < at sent
      → let behind = told (told held (some s) pushed) none sent in
        let t' = (start true id machine minutes r (get_active_session machine asked t).0).0 in
        ((advance behind.0 now).1 ≡ blocked) × (find_first (is_active_of machine) t' ≡ some s)
  unfolding advance
  connect_overtaken id machine minutes asked r t s held pushed sent now nothing success h k =
      let before = told held (some s) pushed in
      let empty = told_nothing before sent (rw (told_last held s pushed h) k) in
      (
        rw (empty),
        start-find_first true id machine minutes r (get_active_session machine asked t).0 s success,
      )
