-- ===== src/Examples/Client.antt =====
-- The theorems of Client at concrete inputs.
use taymna.Common.{inl, ◌≡◌, ◌≢◌, refl, arith, true, false, Option, none, some, [], ◌∷◌, All}
use taymna.Common.Int.{pos}
use taymna.Common.Text.{Str, codes}
use taymna.Client.{ServerToAgent, heartbeat_ack, ack_decommission, min_backoff}
use taymna.Client.Connection.{
  transport, text, close, ended, heartbeat_due, message, Episode, connect_and_serve, stopped, run,
}
use taymna.Client.Connection.Finalized.{Ends, run_finalizes}
use taymna.Client.Connection.Decommission.{IsNoAck, IsManagedEpisode, run_managed}

abbrev version : Str
version = codes "0.1.0"

-- A server that says `{}` acknowledges a heartbeat.
abbrev parse : Str → Option ServerToAgent
parse [] = none
parse (_ ∷ _) = some (heartbeat_ack 5)

abbrev unreachable : Episode
unreachable = record { connect = some transport; pending = []; ack_send = none; rounds = [] }

-- A connection that is greeted, beats once and is closed for a rejected credential.
abbrev rejected : Episode
rejected = record {
  connect = none;
  pending = [];
  ack_send = none;
  rounds =
      message (text (codes "{}")) (pos 1) none
      ∷ heartbeat_due (pos 2) none
      ∷ message (close (some 4001)) (pos 3) none
      ∷ [];
}

-- A connection that finds an acknowledgement waiting, and ends.
abbrev acknowledging : Episode
acknowledging = record {
  connect = none;
  pending = ack_decommission ∷ [];
  ack_send = none;
  rounds = message ended (pos 1) none ∷ [];
}

rejected-IsManagedEpisode : IsManagedEpisode rejected
rejected-IsManagedEpisode = (refl, (tt, (tt, (λ e. ground arith, tt))))

run_managed_example :
    let (acts, status) = run version parse min_backoff false (rejected ∷ unreachable ∷ []) in
    (status ≢ stopped) × All IsNoAck acts
run_managed_example =
    run_managed version parse min_backoff (rejected ∷ unreachable ∷ [])
      (rejected-IsManagedEpisode, ((refl, tt), tt))

-- A connection on which the server answers, and then says that it does not know the machine.
abbrev forgotten : Episode
forgotten = record {
  connect = none;
  pending = [];
  ack_send = none;
  rounds =
      message (text (codes "{}")) (pos 1) none
      ∷ message (close (some 4001)) (pos 3) none
      ∷ heartbeat_due (pos 4) none
      ∷ [];
}

unreachable-Ends : Ends version parse unreachable
unfolding connect_and_serve
unreachable-Ends c e = absurd (ground arith)

run_finalizes_example :
    (run version parse min_backoff true (unreachable ∷ unreachable ∷ forgotten ∷ rejected ∷ [])).1
    ≡ stopped
run_finalizes_example =
    run_finalizes version parse min_backoff (unreachable ∷ unreachable ∷ []) forgotten
      (rejected ∷ []) (unreachable-Ends, (unreachable-Ends, tt))
      (
        refl,
        refl,
        4001,
        message (text (codes "{}")) (pos 1) none ∷ [],
        heartbeat_due (pos 4) none ∷ [],
        pos 3,
        none,
        inl refl,
        (refl, tt),
        refl,
      )
