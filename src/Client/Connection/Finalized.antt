-- ===== src/Client/Connection/Finalized.antt =====
-- When the connection task of a decommissioned agent ends.
use taymna.Common.{
  ℕ, ◌≡◌, ◌≢◌, ◌⊎◌, refl, true, none, some, List, ◌∷◌, ◌++◌, All, inl, inr, [], Option, Bool-cases,
  Option-cases,
}
use taymna.Common.Int.{ℤ}
use taymna.Common.Text.{Str}
use taymna.Client.{ServerToAgent, ack_decommission, finalized, min_backoff, ClientCommand}
use taymna.Client.Connection.{
  Error, ok, text, close, skipped, failed, ended, Round, heartbeat_due, command, message,
  Connection, go_on, return, round, serve, Episode, drain, connect_and_serve, stopped, run,
  Next-cases, Result-cases, doubled,
}
use taymna.Client.Connection.Decommission.{Remembers, round-Remembers, serve-Remembers}

-- A round after which the connection goes on: whatever it sends is sent, and nothing ends it.
abbrev pub IsSmooth : Round → Type 0
IsSmooth (heartbeat_due _ e) = e ≡ none
IsSmooth (command (some _) e) = e ≡ none
IsSmooth (command none _) = ⊥
IsSmooth (message (text _) _ e) = e ≡ none
IsSmooth (message skipped _ _) = Unit {0}
IsSmooth (message _ _ _) = ⊥

-- A connection that comes about and on which, behind rounds that go on, the server closes with one
-- of the two codes for an agent that is no longer known to it.
abbrev pub IsFinal : Episode → Type 0
IsFinal ep =
    (ep.connect ≡ none)
    × (ep.ack_send ≡ none)
    × (code : ℕ) × (before : List Round) × (after : List Round) × (at_ms : ℤ) × (send : Option
        Error)
    × ((code ≡ 4001) ⊎ (code ≡ 4003))
    × All IsSmooth before
    × (ep.rounds ≡ before ++ message (close (some code)) at_ms send ∷ after)

pub drain-true : (pending : List ClientCommand) → drain true pending ≡ true
drain-true [] = refl
drain-true (ack_decommission ∷ pending) = drain-true pending

module _ (version : Str) (parse : Str → Option ServerToAgent) where
  -- A connection that does not last beyond the rounds that are given.
  abbrev pub Ends : Episode → Type 0
  Ends ep = (c : Connection) → (connect_and_serve version parse true ep).1 ≢ go_on c

  round-go_on :
      (c : Connection) (r : Round)
      → IsSmooth r
      → (c' : Connection) × ((round version parse c r).1 ≡ go_on c')
  unfolding round
  round-go_on c (heartbeat_due at_ms e) h = (c, rw h refl)
  round-go_on c (command (some ack_decommission) e) h =
      (record c { ack_decommission = true }, rw h refl)
  round-go_on c (message (text s) at_ms e) h = elim (Bool-cases c.greeted) [
    | inl g ↦ (c, rw g refl)
    | inr g ↦ (record c { greeted = true }, rw (g, h) refl)
  ]
  round-go_on c (message skipped at_ms e) h = (c, refl)
  round-go_on c (command none e) h = absurd h
  round-go_on c (message (close code) at_ms e) h = absurd h
  round-go_on c (message (failed error) at_ms e) h = absurd h
  round-go_on c (message ended at_ms e) h = absurd h

  serve-close :
      (c : Connection) (before after : List Round) (code : ℕ) (at_ms : ℤ) (send : Option Error)
      → c.ack_decommission ≡ true
      → (code ≡ 4001) ⊎ (code ≡ 4003)
      → All IsSmooth before
      → (serve version parse c (before ++ message (close (some code)) at_ms send ∷ after)).1
        ≡ return true (ok finalized)
  unfolding serve
  serve-close c [] after code at_ms send h k s =
      unfold round in elim k [ inl e ↦ rw (h, e) refl | inr e ↦ rw (h, e) refl ]
  serve-close c (r ∷ before) after code at_ms send h k (s, smooth) =
      let (c', e) = round-go_on c r s in
      let kept : c'.ack_decommission ≡ true = rw e at (round-Remembers version parse c r h) in
      rw (e, serve) (serve-close c' before after code at_ms send kept k smooth)

  connect_and_serve-IsFinal :
      (ep : Episode)
      → IsFinal ep
      → (connect_and_serve version parse true ep).1 ≡ return true (ok finalized)
  unfolding connect_and_serve
  connect_and_serve-IsFinal ep (c, a, code, before, after, at_ms, send, k, smooth, e) =
      rw (c, connect_and_serve, drain-true ep.pending, a, e)
        (serve-close _ before after code at_ms send (drain-true ep.pending) k smooth)

  connect_and_serve-Remembers :
      (ep : Episode) → Remembers (connect_and_serve version parse true ep).1
  unfolding connect_and_serve
  connect_and_serve-Remembers ep = elim (Option-cases ep.connect) [
    | inr (error, e) ↦ rw (e, connect_and_serve) refl
    | inl e ↦ elim (Option-cases ep.ack_send) [
      | inr (error, f) ↦ rw (e, connect_and_serve, drain-true ep.pending, f) refl
      | inl f ↦
          rw (e, connect_and_serve, drain-true ep.pending, f)
            (serve-Remembers version parse _ ep.rounds (drain-true ep.pending))
    ]
  ]

  -- Once the run loop has asked for the acknowledgement, the connection task ends: if every
  -- connection that it tries before ends in some way, and then one comes about, can send the
  -- acknowledgement, and is closed by the server, behind rounds that go on, with the code for a
  -- finalized decommission or for a credential that is not known, then the task has returned,
  -- whatever would come later and whatever the backoff is.
  pub run_finalizes :
      (backoff : ℕ) (eps : List Episode) (ep : Episode) (later : List Episode)
      → All Ends eps
      → IsFinal ep
      → (run version parse backoff true (eps ++ ep ∷ later)).1 ≡ stopped
  unfolding run
  run_finalizes backoff [] ep later h f = rw (run, connect_and_serve-IsFinal ep f) refl
  run_finalizes backoff (first ∷ eps) ep later (h, hs) f =
      elim (Next-cases (connect_and_serve version parse true first).1) [
        | inl (c, e) ↦ absurd (h c e)
        | inr (ack, result, e) ↦
            let same : ack ≡ true = rw e at (connect_and_serve-Remembers first) in
            elim (Result-cases result) [
              | inl g ↦ rw (e, g, run) refl
              | inr (inl g) ↦
                  rw (e, g, same, run) (run_finalizes (doubled min_backoff) eps ep later hs f)
              | inr (inr (error, g)) ↦
                  rw (e, g, same, run) (run_finalizes (doubled backoff) eps ep later hs f)
            ]
      ]
