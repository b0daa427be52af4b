-- ===== src/System/Links.antt =====
-- What the connection task acknowledges, round by round.
use taymna.Common.{
  ℕ, ◌≡◌, refl, Bool, true, false, Option, none, some, List, [], ◌∷◌, ◌++◌, arith, inl, inr,
  Option-cases, Bool-cases,
}
use taymna.Common.Text.{Str}
use taymna.Client.{ServerToAgent, ack_decommission, heartbeat, event_of}
use taymna.Client.Connection
use taymna.Client.Connection.{
  Act, send, sleep, ok, err, Next, go_on, return, Round, Episode, handle_message, round, drain,
  connect_and_serve, heartbeat_due, message, text, close, skipped, failed, ended, serve, opened,
}
use taymna.Client.{disconnected, finalized}
use taymna.System.{World, Link, down, up, over, sent, settle, served, dialled}
use taymna.System.Lifecycle.{Life, stay, acknowledge}
use taymna.System.Lawful.{phase_of}

abbrev pub ack_of : Link → Bool
ack_of (down ack backoff) = ack
ack_of (up c backoff) = c.ack_decommission
ack_of over = false

-- The task's flag is set only if another one is.
abbrev IsCovered : Bool → Next → Type 0
IsCovered flag (go_on c) = c.ack_decommission ≡ true → flag ≡ true
IsCovered flag (return ack result) = ack ≡ true → flag ≡ true

-- A part of a connection that acknowledges only if a flag is set, and keeps its own within it.
abbrev IsBacked : Bool → List Act × Next → Type 0
IsBacked flag (acts, next) = Life (phase_of flag) (sent acts) (phase_of flag) × IsCovered flag next

abbrev pub IsBackedLink : Bool → List Act × Link → Type 0
IsBackedLink flag (acts, link) =
    Life (phase_of flag) (sent acts) (phase_of flag) × (ack_of link ≡ true → flag ≡ true)

pub sent-sleep : (acts : List Act) (n : ℕ) → sent (acts ++ sleep n ∷ []) ≡ sent acts
sent-sleep [] n = refl
sent-sleep (a ∷ acts) n = ground (arith, sent-sleep acts n)

settle-IsBackedLink :
    (flag : Bool) (backoff : ℕ) (acts : List Act) (next : Next)
    → IsBacked flag (acts, next)
    → IsBackedLink flag (settle backoff (acts, next))
settle-IsBackedLink flag backoff acts (go_on c) h = h
settle-IsBackedLink flag backoff acts (return ack (ok finalized)) (life, h) =
    (life, λ e. ground arith)
settle-IsBackedLink flag backoff acts (return ack (ok disconnected)) (life, h) =
    (rw (sent-sleep acts) life, h)
settle-IsBackedLink flag backoff acts (return ack (err e)) (life, h) =
    (rw (sent-sleep acts) life, h)

pub sent-handle_message :
    (parse : Str → Option ServerToAgent) (s : Str) (acts : List Act)
    → (sent (handle_message parse s) ≡ []) × (sent (handle_message parse s ++ acts) ≡ sent acts)
unfolding handle_message
sent-handle_message parse s acts = elim (Option-cases (parse s)) [
  | inl e ↦ rw (e, handle_message) (refl, refl)
  | inr (m, e) ↦
      rw (e, handle_message)
        (elim (Option-cases (event_of m)) [
          | inl n ↦ rw n (refl, refl)
          | inr (event, f) ↦ rw f (refl, refl)
        ])
]

abbrev pub asks : Round → Bool
asks (Connection.command (some ack_decommission) _) = true
asks _ = false

module _ (version : Str) (parse : Str → Option ServerToAgent) where
  round-IsBacked :
      (flag : Bool) (c : Connection.Connection) (r : Round)
      → (c.ack_decommission ≡ true → flag ≡ true)
      → (asks r ≡ true → flag ≡ true)
      → IsBacked flag (round version parse c r)
  unfolding round
  round-IsBacked flag c (heartbeat_due at_ms none) h k = (stay _, h)
  round-IsBacked flag c (heartbeat_due at_ms (some e)) h k = (stay _, h)
  round-IsBacked flag c (Connection.command none e) h k = (stay _, h)
  round-IsBacked flag c (Connection.command (some ack_decommission) none) h k =
      rw (k refl) (acknowledge (stay _), λ _. refl)
  round-IsBacked flag c (Connection.command (some ack_decommission) (some e)) h k =
      rw (k refl) (stay _, λ _. refl)
  round-IsBacked flag c (message (text s) at_ms e) h k =
      let hello = heartbeat at_ms version in
      let (p, q) = sent-handle_message parse s (send hello ∷ []) in
      elim (Bool-cases c.greeted) [
        | inl g ↦ rw (g, p) (stay _, h)
        | inr g ↦ elim (Option-cases e) [
          | inl n ↦ rw (g, n, q) (stay _, h)
          | inr (error, n) ↦ rw (g, n, p) (stay _, h)
        ]
      ]
  round-IsBacked flag c (message (close code) at_ms e) h k = (stay _, h)
  round-IsBacked flag c (message skipped at_ms e) h k = (stay _, h)
  round-IsBacked flag c (message (failed error) at_ms e) h k = (stay _, h)
  round-IsBacked flag c (message ended at_ms e) h k = (stay _, h)

  connect_and_serve-IsBacked :
      (flag ack : Bool) (ep : Episode)
      → (drain ack ep.pending ≡ true → flag ≡ true)
      → (ack ≡ true → flag ≡ true)
      → IsBacked flag (connect_and_serve version parse ack (record ep { rounds = [] }))
  unfolding connect_and_serve serve
  connect_and_serve-IsBacked flag ack ep h k = elim (Option-cases ep.connect) [
    | inr (error, e) ↦ rw (e, connect_and_serve) (stay _, k)
    | inl e ↦ elim (Bool-cases (drain ack ep.pending)) [
      | inr d ↦ rw (e, connect_and_serve, d) (stay _, λ f. ground arith)
      | inl d ↦ elim (Option-cases ep.ack_send) [
        | inl n ↦ rw (h d, e, connect_and_serve, d, n) (acknowledge (stay _), λ _. refl)
        | inr (error, n) ↦ rw (h d, e, connect_and_serve, d, n) (stay _, λ _. refl)
      ]
    ]
  ]

module _ (w : World) where
  pub served-IsBackedLink :
      (flag : Bool) (backoff : ℕ) (c : Connection.Connection) (r : Round)
      → (c.ack_decommission ≡ true → flag ≡ true)
      → (asks r ≡ true → flag ≡ true)
      → IsBackedLink flag (served w backoff c r)
  served-IsBackedLink flag backoff c r h k =
      settle-IsBackedLink flag backoff _ _ (round-IsBacked w.version w.parse_message flag c r h k)

  pub dialled-IsBackedLink :
      (flag : Bool) (backoff : ℕ) (ack : Bool) (ep : Episode)
      → (drain ack ep.pending ≡ true → flag ≡ true)
      → (ack ≡ true → flag ≡ true)
      → IsBackedLink flag (dialled w backoff ack ep)
  dialled-IsBackedLink flag backoff ack ep h k =
      settle-IsBackedLink flag backoff _ _
        (connect_and_serve-IsBacked w.version w.parse_message flag ack ep h k)
