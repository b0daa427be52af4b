-- ===== src/Client/Connection/Backoff.antt =====
-- How long the connection task sleeps between two connections.
use taymna.Common.{
  ℕ, ◌≤◌, ◌≡◌, refl, ap, Bool, Option, some, List, [], ◌∷◌, ◌++◌, arith, All, All-append, inl, inr,
}
use taymna.Common.Text.{Str}
use taymna.Client.{ServerToAgent, min_backoff, max_backoff}
use taymna.Client.Connection.Acts.{connect_and_serve-All}
use taymna.Client.Connection.{
  Error, err, Act, sleep, return, Episode, connect_and_serve, reconnecting, run, Next-cases,
  Result-cases, doubled,
}

-- The sleeps among some acts.
abbrev pub sleeps : List Act → List ℕ
sleeps [] = []
sleeps (sleep n ∷ acts) = n ∷ sleeps acts
sleeps (_ ∷ acts) = sleeps acts

-- A task that cannot connect doubles its sleep each time, up to the largest.
abbrev pub schedule : ℕ → List Episode → List ℕ
schedule backoff [] = []
schedule backoff (_ ∷ eps) = backoff ∷ schedule (doubled backoff) eps

abbrev pub IsUnreachable : Episode → Type 0
IsUnreachable ep = (e : Error) × (ep.connect ≡ some e)

-- From 1 to 30 seconds.
abbrev pub IsPatient : ℕ → Type 0
IsPatient n = (1 ≤ n) × (n ≤ max_backoff)

abbrev pub IsBrief : Act → Type 0
IsBrief (sleep n) = IsPatient n
IsBrief _ = Unit {0}

after_sleep :
    (acts later : List Act) (n : ℕ)
    → All IsBrief acts
    → IsPatient n
    → All IsBrief later
    → All IsBrief ((acts ++ sleep n ∷ []) ++ later)
after_sleep acts later n h p k =
    All-append IsBrief (acts ++ sleep n ∷ []) later
      (All-append IsBrief acts (sleep n ∷ []) h (p, tt)) k

module _ (version : Str) (parse : Str → Option ServerToAgent) where
  connect_and_serve_unreachable :
      (ack : Bool) (ep : Episode) (error : Error)
      → ep.connect ≡ some error
      → ((connect_and_serve version parse ack ep).0 ≡ [])
        × ((connect_and_serve version parse ack ep).1 ≡ return ack (err error))
  unfolding connect_and_serve
  connect_and_serve_unreachable ack ep error e = rw e (refl, refl)

  -- While no connection comes about the task only sleeps, and goes on trying: for the backoff that
  -- it has at first, and each time for twice as long as the last time, up to 30 seconds.
  pub run_unreachable :
      (backoff : ℕ) (ack : Bool) (eps : List Episode)
      → All IsUnreachable eps
      → let (acts, status) = run version parse backoff ack eps in
        (sleeps acts ≡ schedule backoff eps) × ((later : ℕ) × (status ≡ reconnecting ack later))
  unfolding run
  run_unreachable backoff ack [] h = (refl, (backoff, refl))
  run_unreachable backoff ack (ep ∷ eps) ((error, e), h) =
      let (same, later) = run_unreachable (doubled backoff) ack eps h in
      let (nothing, ended) = connect_and_serve_unreachable ack ep error e in
      rw (ended, run, nothing) (ap (◌∷◌ backoff) same, later)

  -- Whatever happens on its connections, a task whose backoff is from 1 to 30 seconds sleeps from 1
  -- to 30 seconds between two of them.
  pub run-IsPatient :
      (backoff : ℕ) (ack : Bool) (eps : List Episode)
      → IsPatient backoff
      → All IsBrief (run version parse backoff ack eps).0
  unfolding run
  run-IsPatient backoff ack [] h = tt
  run-IsPatient backoff ack (ep ∷ eps) h =
      let acts = (connect_and_serve version parse ack ep).0 in
      let brief = connect_and_serve-All version parse IsBrief (λ _. tt) tt (λ _. tt) ack ep in
      let next = λ (n : ℕ) (ack' : Bool) (p : IsPatient n).
        after_sleep acts (run version parse (doubled n) ack' eps).0 n brief p
          (run-IsPatient (doubled n) ack' eps (omega arith)) in
      elim (Next-cases (connect_and_serve version parse ack ep).1) [
        | inl (c, e) ↦ rw (e, run) brief
        | inr (ack', result, e) ↦ elim (Result-cases result) [
          | inl f ↦ rw (e, f, run) brief
          | inr (inl f) ↦ rw (e, f, run) (next min_backoff ack' (omega arith))
          | inr (inr (error, f)) ↦ rw (e, f, run) (next backoff ack' h)
        ]
      ]
