-- ===== src/System/Sequence.antt =====
-- The moves of the connection task, one after another.
use mathlib.Core.List.{append_assoc}
use taymna.Common.{
  ℕ, ◌≡◌, refl, sym, ◌∙◌, Bool, false, List, [], ◌∷◌, ◌++◌, arith, inl, inr, ap, Option-cases,
  Bool-cases,
}
use taymna.Client.{decommission_ack, finalized, disconnected, min_backoff}
use taymna.Client.Connection
use taymna.Client.Connection.{
  Act, send, sleep, ok, err, go_on, return, Next, Next-cases, Result-cases, Served, prepend, drain,
  Round, Episode, round, serve, connect_and_serve, run, Status, connected, reconnecting, stopped,
  doubled, then_acts,
}
use taymna.System.{World, Link, down, up, over, settle, served, dialled}

abbrev pub before : List Act → List Act × Link → List Act × Link
before acts (later, link) = (acts ++ later, link)

abbrev pub status_of : Link → Status
status_of (down ack backoff) = reconnecting ack backoff
status_of (up c backoff) = connected c
status_of over = stopped

abbrev task_then : (ℕ → Bool → List Act × Link) → List Act × Link → List Act × Link
task_then k (acts, down ack b) = before acts (k b ack)
task_then k (acts, up c b) = (acts, up c b)
task_then k (acts, over) = (acts, over)

abbrev moves_then : (Connection.Connection → List Act × Link) → List Act × Link → List Act × Link
moves_then k (acts, up c b) = before acts (k c)
moves_then k (acts, down ack b) = (acts, down ack b)
moves_then k (acts, over) = (acts, over)

module _ (w : World) where
  -- The rounds of a connection, and a whole one, until it ends.
  unfoldable pub rounds_of : ℕ → Connection.Connection → List Round → List Act × Link
  rounds_of backoff c [] = ([], up c backoff)
  rounds_of backoff c (r ∷ rs) = moves_then (λ c'. rounds_of backoff c' rs) (served w backoff c r)

  unfoldable pub connection_of : ℕ → Bool → Episode → List Act × Link
  unfolding rounds_of
  connection_of backoff ack ep =
      moves_then (λ c. rounds_of backoff c ep.rounds) (dialled w backoff ack ep)

  -- The whole task.
  unfoldable pub task : ℕ → Bool → List Episode → List Act × Link
  unfolding connection_of
  task backoff ack [] = ([], down ack backoff)
  task backoff ack (ep ∷ eps) = task_then (λ b ack'. task b ack' eps) (connection_of backoff ack ep)

settle-prepend :
    (backoff : ℕ) (acts later : List Act) (next : Next)
    → settle backoff (acts ++ later, next) ≡ before acts (settle backoff (later, next))
settle-prepend backoff acts later (go_on c) = refl
settle-prepend backoff acts later (return ack (ok finalized)) = refl
settle-prepend backoff acts later (return ack (ok disconnected)) =
    ap (λ r. (r, down ack (doubled min_backoff))) (append_assoc acts later (sleep min_backoff ∷ []))
settle-prepend backoff acts later (return ack (err e)) =
    ap (λ r. (r, down ack (doubled backoff))) (append_assoc acts later (sleep backoff ∷ []))

-- What a part of a connection is followed by, in `serve` and in a sequence of moves.
abbrev serve_then : (Connection.Connection → Served) → List Act → Next → Served
serve_then k acts next = elim next [
  | go_on c ↦ prepend acts (k c)
  | return ack result ↦ (acts, return ack result)
]

settle_then :
    (backoff : ℕ) (k : Connection.Connection → Served)
    (k' : Connection.Connection → List Act × Link) (acts : List Act) (next : Next)
    → ((c : Connection.Connection) → settle backoff (k c) ≡ k' c)
    → settle backoff (serve_then k acts next) ≡ moves_then k' (settle backoff (acts, next))
settle_then backoff k k' acts (go_on c) h =
    settle-prepend backoff acts (k c).0 (k c).1 ∙ ap (before acts) (h c)
settle_then backoff k k' acts (return ack (ok finalized)) h = refl
settle_then backoff k k' acts (return ack (ok disconnected)) h = refl
settle_then backoff k k' acts (return ack (err e)) h = refl

-- What a connection is followed by, in `run` and in a sequence of moves.
abbrev pub with_status : List Act × Link → List Act × Status
with_status (acts, link) = (acts, status_of link)

abbrev run_then : (ℕ → Bool → List Act × Status) → ℕ → List Act → Next → List Act × Status
run_then k backoff acts next = elim next [
  | go_on c ↦ (acts, connected c)
  | return ack result ↦ elim result [
    | ok outcome ↦ elim outcome [
      | finalized ↦ (acts, stopped)
      | disconnected ↦ then_acts (acts ++ sleep min_backoff ∷ []) (k (doubled min_backoff) ack)
    ]
    | err error ↦ then_acts (acts ++ sleep backoff ∷ []) (k (doubled backoff) ack)
  ]
]

run_then-eq :
    (k : ℕ → Bool → List Act × Status) (k' : ℕ → Bool → List Act × Link) (backoff : ℕ)
    (acts : List Act) (next : Next)
    → ((b : ℕ) (ack : Bool) → k b ack ≡ with_status (k' b ack))
    → run_then k backoff acts next ≡ with_status (task_then k' (settle backoff (acts, next)))
run_then-eq k k' backoff acts (go_on c) h = refl
run_then-eq k k' backoff acts (return ack (ok finalized)) h = refl
run_then-eq k k' backoff acts (return ack (ok disconnected)) h =
    ap (then_acts (acts ++ sleep min_backoff ∷ [])) (h (doubled min_backoff) ack)
run_then-eq k k' backoff acts (return ack (err e)) h =
    ap (then_acts (acts ++ sleep backoff ∷ [])) (h (doubled backoff) ack)

module _ (w : World) where
  settle-serve :
      (backoff : ℕ) (c : Connection.Connection) (rs : List Round)
      → settle backoff (serve w.version w.parse_message c rs) ≡ rounds_of w backoff c rs
  unfolding serve rounds_of
  settle-serve backoff c [] = refl
  settle-serve backoff c (r ∷ rs) =
      let (acts, next) = round w.version w.parse_message c r in
      settle_then backoff (λ c'. serve w.version w.parse_message c' rs)
        (λ c'. rounds_of w backoff c' rs) acts next (λ c'. settle-serve backoff c' rs)

  settle-connect_and_serve :
      (backoff : ℕ) (ack : Bool) (ep : Episode)
      → settle backoff (connect_and_serve w.version w.parse_message ack ep)
        ≡ connection_of w backoff ack ep
  unfolding connect_and_serve connection_of serve
  settle-connect_and_serve backoff ack ep =
      let start : Connection.Connection = record {
        ack_decommission = drain ack ep.pending;
        greeted = false;
      } in
      let later = serve w.version w.parse_message start ep.rounds in
      let greeted_with : Bool → List Act × Link = λ flag. (
        send decommission_ack ∷ [],
        up (record { ack_decommission = flag; greeted = false }) backoff,
      ) in
      let rest = settle-serve backoff start ep.rounds in
      elim (Option-cases ep.connect) [
        | inr (error, e) ↦ rw (e, connect_and_serve, connection_of) refl
        | inl e ↦ elim (Bool-cases (drain ack ep.pending)) [
          | inr d ↦ rw (e, connect_and_serve, d, connection_of) (settle-serve backoff _ ep.rounds)
          | inl d ↦ elim (Option-cases ep.ack_send) [
            | inl n ↦
                let greeting : dialled w backoff ack ep
                    ≡ (send decommission_ack ∷ [], up start backoff) =
                  rw (e, connect_and_serve, d, n) (ap greeted_with d) in
                let opening : connect_and_serve w.version w.parse_message ack ep
                    ≡ prepend (send decommission_ack ∷ []) later =
                  ground (arith, e, d, n) in
                ap (settle backoff) opening
                ∙ settle-prepend backoff (send decommission_ack ∷ []) later.0 later.1
                ∙ ap (before (send decommission_ack ∷ [])) rest
                ∙ ap (moves_then (λ c. rounds_of w backoff c ep.rounds)) (sym greeting)
            | inr (error, n) ↦ rw (e, connect_and_serve, d, n, connection_of) refl
          ]
        ]
      ]

  -- Over any episodes, what `run` does, and where it is afterwards, is what the moves of the
  -- connection task do one after another, each connection dialled, then its rounds until it ends:
  -- its acts are the same in the same order, and it is connected, reconnecting or stopped as the last
  -- of them left it.
  pub run-task :
      (backoff : ℕ) (ack : Bool) (eps : List Episode)
      → run w.version w.parse_message backoff ack eps ≡ with_status (task w backoff ack eps)
  unfolding run task
  run-task backoff ack [] = refl
  run-task backoff ack (ep ∷ eps) =
      let (acts, next) = connect_and_serve w.version w.parse_message ack ep in
      run_then-eq (λ b a. run w.version w.parse_message b a eps) (λ b a. task w b a eps) backoff
        acts next (λ b a. run-task b a eps)
      ∙ ap (λ p. with_status (task_then (λ b a. task w b a eps) p))
          (settle-connect_and_serve backoff ack ep)
