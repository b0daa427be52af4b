-- ===== src/Client/Connection.antt =====
-- agent/src/client.rs, `connect_and_serve` and `run`: one connection, and the loop that reconnects.
pub mod Acts
pub mod Backoff
pub mod Decommission
pub mod Finalized
use taymna.Common.{
  ℕ, ◌*◌, ◌≡◌, refl, ◌⊎◌, inl, inr, Bool, true, false, ◌&&◌, Option, none, some, List, [], ◌∷◌,
  ◌++◌, min, if◌then◌else◌, nat_beq,
}
use taymna.Common.Equality.{◌==◌, nat_eq, option_eq}
use taymna.Common.Int.{ℤ}
use taymna.Common.Text.{Str}
use taymna.Client.{
  AgentToServer, heartbeat, decommission_ack, ClientCommand, ack_decommission, ServerToAgent,
  ServerEvent, Outcome, disconnected, finalized, event_of, min_backoff, max_backoff,
  decommission_finalized_code, invalid_credential_code,
}

-- A transport error; the code only logs it.
pub data Error : Type 0 where
  transport : Error

pub data Result : Type 0 where
  ok : Outcome → Result
  err : Error → Result

-- What `read.next()` gives: a text, a close frame with its code if it has one, a ping, pong or
-- binary message, an error, or the end of the stream.
pub data Incoming : Type 0 where
  text : Str → Incoming
  close : Option ℕ → Incoming
  skipped : Incoming
  failed : Error → Incoming
  ended : Incoming

-- What `select!` takes up in one round, with the time that a heartbeat would carry and the error of
-- a send if it has one.
pub data Round : Type 0 where
  heartbeat_due : (at_ms : ℤ) → (send : Option Error) → Round
  command : Option ClientCommand → (send : Option Error) → Round
  message : Incoming → (at_ms : ℤ) → (send : Option Error) → Round

-- What the task does that others can see.
pub data Act : Type 0 where
  send : AgentToServer → Act
  forward : ServerEvent → Act
  sleep : (seconds : ℕ) → Act

pub record Connection : Type 0 where
  pub ack_decommission : Bool
  pub greeted : Bool

-- One round: it goes on with a new state, or the function returns.
pub data Next : Type 0 where
  go_on : Connection → Next
  return : Bool → Result → Next

pub Next-cases :
    (n : Next)
    → ((c : Connection) × (n ≡ go_on c)) ⊎ ((ack : Bool) × (r : Result) × (n ≡ return ack r))
Next-cases (go_on c) = inl (c, refl)
Next-cases (return ack r) = inr (ack, r, refl)

pub Result-cases :
    (r : Result) → (r ≡ ok finalized) ⊎ ((r ≡ ok disconnected) ⊎ ((e : Error) × (r ≡ err e)))
Result-cases (ok finalized) = inl refl
Result-cases (ok disconnected) = inr (inl refl)
Result-cases (err e) = inr (inr (e, refl))

abbrev pub after_send : Option Error → AgentToServer → Connection → List Act → List Act × Next
after_send none m c acts = (acts ++ send m ∷ [], go_on c)
after_send (some e) m c acts = (acts, return c.ack_decommission (err e))

abbrev forwarded : Option ServerEvent → List Act
forwarded none = []
forwarded (some event) = forward event ∷ []

abbrev pub close_outcome : Bool → Option ℕ → Outcome
close_outcome ack code =
    if code == some decommission_finalized_code
    then finalized
    else if ack && code == some invalid_credential_code
    then finalized
    else disconnected

-- The rounds of a connection. It may still be going on when they are used up.
abbrev pub Served : Type 0
Served = List Act × Next

abbrev pub prepend : List Act → Served → Served
prepend acts (later, next) = (acts ++ later, next)

-- One call of `connect_and_serve`: the error that the request or the handshake meets, the
-- commands that wait in the channel once connected, the error of the first acknowledgement's
-- send, and the rounds.
pub record Episode : Type 0 where
  pub connect : Option Error
  pub pending : List ClientCommand
  pub ack_send : Option Error
  pub rounds : List Round

abbrev pub drain : Bool → List ClientCommand → Bool
drain ack [] = ack
drain ack (ack_decommission ∷ pending) = drain true pending

-- Where the loop of `run` is when the episodes are used up: in the middle of the last one's
-- connection, about to connect again, or returned.
pub data Status : Type 0 where
  connected : Connection → Status
  reconnecting : (ack : Bool) (backoff : ℕ) → Status
  stopped : Status

abbrev pub then_acts : List Act → List Act × Status → List Act × Status
then_acts acts (later, status) = (acts ++ later, status)

-- The sleep at the end of a round of the loop, and the backoff after it.
abbrev pub doubled : ℕ → ℕ
doubled backoff = min (backoff * 2) max_backoff

-- `parse` is serde_json's `from_str` at `ServerToAgent`.
module _ (parse : Str → Option ServerToAgent) where
  unfoldable pub handle_message : Str → List Act
  handle_message s = elim (parse s) [ none ↦ [] | some m ↦ forwarded (event_of m) ]

-- `version` is the build's version.
module _ (version : Str) (parse : Str → Option ServerToAgent) where
  abbrev pub receive : Incoming → Connection → ℤ → Option Error → List Act × Next
  receive (text s) c at_ms e =
      if c.greeted
      then (handle_message parse s, go_on c)
      else after_send e (heartbeat at_ms version) (record c { greeted = true })
          (handle_message parse s)
  receive (close code) c at_ms e =
      ([], return c.ack_decommission (ok (close_outcome c.ack_decommission code)))
  receive skipped c at_ms e = ([], go_on c)
  receive (failed error) c at_ms e = ([], return c.ack_decommission (err error))
  receive ended c at_ms e = ([], return c.ack_decommission (ok disconnected))

  unfoldable pub round : Connection → Round → List Act × Next
  unfolding handle_message
  round c (heartbeat_due at_ms e) = after_send e (heartbeat at_ms version) c []
  round c (command (some ack_decommission) e) =
      after_send e decommission_ack (record c { ack_decommission = true }) []
  round c (command none e) = ([], return c.ack_decommission (ok disconnected))
  round c (message m at_ms e) = receive m c at_ms e

  unfoldable pub serve : Connection → List Round → Served
  serve c [] = ([], go_on c)
  serve c (r ∷ rs) =
      let (acts, next) = round c r in
      elim next [
        | go_on c' ↦ prepend acts (serve c' rs)
        | return ack result ↦ (acts, return ack result)
      ]

  abbrev pub opened : Connection → Option Error → List Round → Served
  opened c e rounds =
      if c.ack_decommission
      then elim e [
        | some error ↦ ([], return true (err error))
        | none ↦ prepend (send decommission_ack ∷ []) (serve c rounds)
      ]
      else serve c rounds

  unfoldable pub connect_and_serve : Bool → Episode → Served
  connect_and_serve ack ep = elim ep.connect [
    | some error ↦ ([], return ack (err error))
    | none ↦
        opened (record { ack_decommission = drain ack ep.pending; greeted = false }) ep.ack_send
          ep.rounds
  ]

  unfoldable pub run : ℕ → Bool → List Episode → List Act × Status
  run backoff ack [] = ([], reconnecting ack backoff)
  run backoff ack (ep ∷ eps) =
      let (acts, next) = connect_and_serve ack ep in
      elim next [
        | go_on c ↦ (acts, connected c)
        | return ack' result ↦ elim result [
          | ok outcome ↦ elim outcome [
            | finalized ↦ (acts, stopped)
            | disconnected ↦
                then_acts (acts ++ sleep min_backoff ∷ []) (run (doubled min_backoff) ack' eps)
          ]
          | err error ↦ then_acts (acts ++ sleep backoff ∷ []) (run (doubled backoff) ack' eps)
        ]
      ]
