-- ===== src/Client/Connection/Decommission.antt =====
-- When the connection task acknowledges a decommission, and when it stops.
use taymna.Common.{
  ℕ, ◌≡◌, ◌≢◌, refl, Bool, true, false, Option, none, some, List, [], ◌∷◌, ◌++◌, arith, All,
  All-append, Option-cases, inl, inr,
}
use taymna.Common.Text.{Str}
use taymna.Common.Equality.{==_iff, nat_eq, option_eq}
use taymna.Client.{
  heartbeat, decommission_ack, ack_decommission, ServerToAgent, finalized, event_of, min_backoff,
}
use taymna.Client.Connection.{
  ok, text, close, skipped, failed, ended, Round, heartbeat_due, command, message, Act, send, sleep,
  Connection, Next, go_on, return, handle_message, round, serve, Episode, drain, connect_and_serve,
  stopped, run, Next-cases, Result-cases, doubled,
}

-- A round without a command to acknowledge and without the server's close code for a finalized
-- decommission.
abbrev pub IsManaged : Round → Type 0
IsManaged (command (some ack_decommission) _) = ⊥
IsManaged (message (close code) _ _) = code ≢ some 4003
IsManaged _ = Unit {0}

abbrev pub IsManagedEpisode : Episode → Type 0
IsManagedEpisode ep = (ep.pending ≡ []) × All IsManaged ep.rounds

abbrev pub IsNoAck : Act → Type 0
IsNoAck (send decommission_ack) = ⊥
IsNoAck _ = Unit {0}

abbrev pub Remembers : Next → Type 0
Remembers (go_on c) = c.ack_decommission ≡ true
Remembers (return ack result) = ack ≡ true

abbrev IsUnfinished : Next → Type 0
IsUnfinished (go_on c) = c.ack_decommission ≡ false
IsUnfinished (return ack result) = (ack ≡ false) × (result ≢ ok finalized)

handle_message-IsNoAck :
    (parse : Str → Option ServerToAgent) (s : Str) → All IsNoAck (handle_message parse s)
unfolding handle_message
handle_message-IsNoAck parse s = elim (Option-cases (parse s)) [
  | inl e ↦ rw (e, handle_message) tt
  | inr (m, e) ↦
      rw (e, handle_message)
        (elim (Option-cases (event_of m)) [ inl n ↦ rw n tt | inr (event, f) ↦ rw f (tt, tt) ])
]

after_sleep :
    (acts later : List Act) (n : ℕ)
    → All IsNoAck acts
    → All IsNoAck later
    → All IsNoAck ((acts ++ sleep n ∷ []) ++ later)
after_sleep acts later n h k =
    All-append IsNoAck (acts ++ sleep n ∷ []) later
      (All-append IsNoAck acts (sleep n ∷ []) h (tt, tt)) k

module _ (version : Str) (parse : Str → Option ServerToAgent) where
  round_managed :
      (c : Connection) (r : Round)
      → c.ack_decommission ≡ false
      → IsManaged r
      → let (acts, next) = round version parse c r in All IsNoAck acts × IsUnfinished next
  unfolding round
  round_managed c (heartbeat_due at_ms e) h q = ground arith
  round_managed c (command none e) h q = ground arith
  round_managed c (command (some ack_decommission) e) h q = absurd q
  round_managed c (message (text s) at_ms e) h q =
      let hello = heartbeat at_ms version in
      let acts = handle_message parse s in
      let quiet = handle_message-IsNoAck parse s in
      ground (arith, All-append IsNoAck acts (send hello ∷ []) quiet (tt, tt), quiet)
  round_managed c (message (close code) at_ms e) h q = ground (arith, ==_iff code (some 4003))
  round_managed c (message skipped at_ms e) h q = ground arith
  round_managed c (message (failed error) at_ms e) h q = ground arith
  round_managed c (message ended at_ms e) h q = ground arith

  serve_managed :
      (c : Connection) (rs : List Round)
      → c.ack_decommission ≡ false
      → All IsManaged rs
      → let (acts, next) = serve version parse c rs in All IsNoAck acts × IsUnfinished next
  unfolding serve
  serve_managed c [] h q = ground arith
  serve_managed c (r ∷ rs) h (q, qs) =
      let (quiet, unfinished) = round_managed c r h q in
      let acts = (round version parse c r).0 in
      elim (Next-cases (round version parse c r).1) [
        | inl (c', e) ↦
            let (later, still) = serve_managed c' rs (rw e at unfinished) qs in
            rw (e, serve) (All-append IsNoAck acts (serve version parse c' rs).0 quiet later, still)
        | inr (ack, result, e) ↦ rw (e, serve) (quiet, (rw e at unfinished))
      ]

  connect_and_serve_managed :
      (ep : Episode)
      → IsManagedEpisode ep
      → let (acts, next) = connect_and_serve version parse false ep in
        All IsNoAck acts × IsUnfinished next
  unfolding connect_and_serve
  connect_and_serve_managed ep (p, q) = elim (Option-cases ep.connect) [
    | inl e ↦ rw (e, p, connect_and_serve) (serve_managed _ ep.rounds refl q)
    | inr (error, e) ↦ rw (e, connect_and_serve) (tt, (refl, (λ f. cc)))
  ]

  -- A managed agent never gives up: as long as its run loop asks for no acknowledgement and the
  -- server never closes a connection with the code for a finalized decommission, whatever else
  -- happens on its connections (also a rejected credential) it is connected or about to reconnect,
  -- and it never acknowledges a decommission.
  pub run_managed :
      (backoff : ℕ) (eps : List Episode)
      → All IsManagedEpisode eps
      → let (acts, status) = run version parse backoff false eps in
        (status ≢ stopped) × All IsNoAck acts
  unfolding run
  run_managed backoff [] h = ground arith
  run_managed backoff (ep ∷ eps) (q, qs) =
      let (quiet, unfinished) = connect_and_serve_managed ep q in
      let acts = (connect_and_serve version parse false ep).0 in
      elim (Next-cases (connect_and_serve version parse false ep).1) [
        | inl (c, e) ↦ rw (e, run) ((λ f. cc), quiet)
        | inr (ack, result, e) ↦
            let (same, going) =
              let u : IsUnfinished (return ack result) = rw e at unfinished in u in
            elim (Result-cases result) [
              | inl f ↦ absurd (going f)
              | inr (inl f) ↦
                  let (on, later) = run_managed (doubled min_backoff) eps qs in
                  rw (e, f, same, run) (on, after_sleep acts _ min_backoff quiet later)
              | inr (inr (error, f)) ↦
                  let (on, later) = run_managed (doubled backoff) eps qs in
                  rw (e, f, same, run) (on, after_sleep acts _ backoff quiet later)
            ]
      ]

  pub round-Remembers :
      (c : Connection) (r : Round)
      → c.ack_decommission ≡ true
      → Remembers (round version parse c r).1
  unfolding round
  round-Remembers c (command none e) h = ground arith
  round-Remembers c (command (some ack_decommission) e) h = ground arith
  round-Remembers c (message (text s) at_ms e) h = ground arith
  round-Remembers c (message (close code) at_ms e) h = ground arith
  round-Remembers c (message m at_ms e) h = ground arith
  round-Remembers c (heartbeat_due at_ms e) h = ground arith

  pub serve-Remembers :
      (c : Connection) (rs : List Round)
      → c.ack_decommission ≡ true
      → Remembers (serve version parse c rs).1
  unfolding serve
  serve-Remembers c [] h = h
  serve-Remembers c (r ∷ rs) h =
      let kept = round-Remembers c r h in
      elim (Next-cases (round version parse c r).1) [
        | inl (c', e) ↦ rw (e, serve) (serve-Remembers c' rs (rw e at kept))
        | inr (ack, result, e) ↦ rw (e, serve) (rw e at kept)
      ]

  -- Once the run loop has asked for the acknowledgement, before the connection or while it was
  -- down, every connection that comes about begins with it, and the request is never forgotten:
  -- however the connection ends, the next one acknowledges too.
  pub connect_and_serve_acks :
      (ack : Bool) (ep : Episode)
      → drain ack ep.pending ≡ true
      → ep.connect ≡ none
      → ep.ack_send ≡ none
      → let (acts, next) = connect_and_serve version parse ack ep in
        ((rest : List Act) × (acts ≡ send decommission_ack ∷ rest)) × Remembers next
  unfolding connect_and_serve
  connect_and_serve_acks ack ep d c s =
      let start : Connection = record {
        ack_decommission = drain ack ep.pending;
        greeted = false;
      } in
      rw (c, connect_and_serve, d, s)
        (((serve version parse start ep.rounds).0, refl), serve-Remembers start ep.rounds d)
