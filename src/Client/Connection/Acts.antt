-- ===== src/Client/Connection/Acts.antt =====
-- A predicate over all that a connection does.
use taymna.Common.{
  Bool, false, Option, none, some, List, [], ◌∷◌, arith, All, All-append, Option-cases, inl, inr,
}
use taymna.Common.Int.{ℤ}
use taymna.Common.Text.{Str}
use taymna.Client.{
  heartbeat, decommission_ack, ServerToAgent, ServerEvent, event_of, ack_decommission,
}
use taymna.Client.Connection.{
  text, Round, heartbeat_due, command, message, Act, send, forward, Connection, handle_message,
  round, serve, Episode, drain, connect_and_serve, Next-cases,
}

module _ (version : Str) (parse : Str → Option ServerToAgent) (P : Act → Type 0)
    (beat : (at_ms : ℤ) → P (send (heartbeat at_ms version))) (ack : P (send decommission_ack))
    (event : (e : ServerEvent) → P (forward e)) where
  handle_message-All : (s : Str) → All P (handle_message parse s)
  unfolding handle_message
  handle_message-All s = elim (Option-cases (parse s)) [
    | inl e ↦ rw (e, handle_message) tt
    | inr (m, e) ↦
        rw (e, handle_message)
          (elim (Option-cases (event_of m)) [
            | inl n ↦ rw n tt
            | inr (forwarded, f) ↦ rw f (event forwarded, tt)
          ])
  ]

  round-All : (c : Connection) (r : Round) → All P (round version parse c r).0
  unfolding round
  round-All c (heartbeat_due at_ms e) = ground (arith, beat at_ms)
  round-All c (command none e) = tt
  round-All c (command (some ack_decommission) e) = ground (arith, ack)
  round-All c (message (text s) at_ms e) =
      let acts = handle_message parse s in
      let forwarded = handle_message-All s in
      ground (
        arith,
        forwarded,
        All-append P acts (send (heartbeat at_ms version) ∷ []) forwarded (beat at_ms, tt),
      )
  round-All c (message m at_ms e) = tt

  serve-All : (c : Connection) (rs : List Round) → All P (serve version parse c rs).0
  unfolding serve
  serve-All c [] = tt
  serve-All c (r ∷ rs) = elim (Next-cases (round version parse c r).1) [
    | inl (c', e) ↦
        rw (e, serve)
          (All-append P _ (serve version parse c' rs).0 (round-All c r) (serve-All c' rs))
    | inr (kept, result, e) ↦ rw (e, serve) (round-All c r)
  ]

  pub connect_and_serve-All :
      (known : Bool) (ep : Episode) → All P (connect_and_serve version parse known ep).0
  unfolding connect_and_serve
  connect_and_serve-All known ep =
      let start : Connection = record {
        ack_decommission = drain known ep.pending;
        greeted = false;
      } in
      ground (arith, ack, serve-All start ep.rounds)
