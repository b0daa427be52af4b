-- ===== src/Examples/Codec.antt =====
-- A serialisation of the agent's state that parses back, and the conversions of chrono, for the
-- examples. Every text is written behind its length.
use taymna.Common.{
  ℕ, zero, suc, ◌≡◌, refl, Bool, true, false, Option, none, some, [], ◌∷◌, ◌++◌, length,
}
use taymna.Common.Int.{ℤ, tdiv}
use taymna.Common.Text.{Str}
use taymna.Session.{SessionSnapshot, SessionStatus, active, expired, ended}
use taymna.Storage.{Credentials, AgentState}
use taymna.Storage.Atomic.{RoundTrips}
use taymna.External.{External}

-- A parser gives what it read and the rest.
abbrev Parser : Type 0 → Type 0
Parser A = Str → Option (A × Str)

infixl 5 ◌>>=◌
abbrev ◌>>=◌ : {A B : Type 0} → Option A → (A → Option B) → Option B
none >>= f = none
some a >>= f = f a

abbrev take : ℕ → Parser Str
take zero s = some ([], s)
take (suc n) [] = none
take (suc n) (c ∷ s) = do (more, rest) ← take n s; some (c ∷ more, rest)

abbrev read_text : Parser Str
read_text [] = none
read_text (n ∷ s) = take n s

abbrev read_number : Parser ℕ
read_number [] = none
read_number (n ∷ s) = some (n, s)

abbrev read_bool : Parser Bool
read_bool [] = none
read_bool (zero ∷ s) = some (false, s)
read_bool (_ ∷ s) = some (true, s)

abbrev read_status : Parser SessionStatus
read_status [] = none
read_status (zero ∷ s) = some (active, s)
read_status (suc zero ∷ s) = some (expired, s)
read_status (_ ∷ s) = some (ended, s)

abbrev read_option : {A : Type 0} → Parser A → Parser (Option A)
read_option p [] = none
read_option p (zero ∷ s) = some (none, s)
read_option p (_ ∷ s) = do (a, rest) ← p s; some (some a, rest)

abbrev write_text : Str → Str → Str
write_text t s = length t ∷ (t ++ s)

abbrev write_bool : Bool → ℕ
write_bool true = 1
write_bool false = 0

abbrev write_status : SessionStatus → ℕ
write_status active = 0
write_status expired = 1
write_status ended = 2

abbrev write_option : {A : Type 0} → (A → Str → Str) → Option A → Str → Str
write_option w none s = 0 ∷ s
write_option w (some a) s = 1 ∷ w a s

take_lem : (t s : Str) → take (length t) (t ++ s) ≡ some (t, s)
take_lem [] s = refl
take_lem (c ∷ t) s = rw (take_lem t s) refl

abbrev write_session : SessionSnapshot → Str → Str
write_session x s =
    write_text x.id (x.started_at ∷ x.expires_at ∷ write_status x.status ∷ x.updated_at ∷ s)

abbrev read_session : Parser SessionSnapshot
read_session s = do
  (id, s) ← read_text s
  (started_at, s) ← read_number s
  (expires_at, s) ← read_number s
  (status, s) ← read_status s
  (updated_at, s) ← read_number s
  some (
    record {
      id = id;
      started_at = started_at;
      expires_at = expires_at;
      status = status;
      updated_at = updated_at;
    },
    s,
  )

read_session_lem : (x : SessionSnapshot) (s : Str) → read_session (write_session x s) ≡ some (x, s)
read_session_lem x s =
    elim x.status
      as (λ st.
        read_session (write_session (record x { status = st }) s)
        ≡ some (record x { status = st }, s)) [
          | active ↦ rw (take_lem x.id _) refl
          | expired ↦ rw (take_lem x.id _) refl
          | ended ↦ rw (take_lem x.id _) refl
        ]

abbrev write_credentials : Credentials → Str → Str
write_credentials c s =
    write_text c.server_url (write_text c.machine_id (write_text c.machine_secret s))

abbrev read_credentials : Parser Credentials
read_credentials s = do
  (server_url, s) ← read_text s
  (machine_id, s) ← read_text s
  (machine_secret, s) ← read_text s
  some (
    record { server_url = server_url; machine_id = machine_id; machine_secret = machine_secret },
    s,
  )

read_credentials_lem :
    (c : Credentials) (s : Str) → read_credentials (write_credentials c s) ≡ some (c, s)
read_credentials_lem c s =
    rw (take_lem c.server_url _, take_lem c.machine_id _, take_lem c.machine_secret _) refl

read_option_lem :
    {A : Type 0} (p : Parser A) (w : A → Str → Str)
    → ((a : A) (s : Str) → p (w a s) ≡ some (a, s))
    → (o : Option A) (s : Str) → read_option p (write_option w o s) ≡ some (o, s)
read_option_lem p w law none s = refl
read_option_lem p w law (some a) s = rw (law a s) refl

unfoldable pub write_state : AgentState → Str
write_state a = write_option write_credentials a.credentials (
    write_bool a.decommissioned
    ∷ write_option write_session a.session (a.last_applied_at ∷ a.trusted_high_water_mark ∷ []))

unfoldable pub read_state : Str → Option AgentState
read_state s = do
  (credentials, s) ← read_option read_credentials s
  (decommissioned, s) ← read_bool s
  (session, s) ← read_option read_session s
  (last_applied_at, s) ← read_number s
  (trusted_high_water_mark, s) ← read_number s
  some (record {
    credentials = credentials;
    decommissioned = decommissioned;
    session = session;
    last_applied_at = last_applied_at;
    trusted_high_water_mark = trusted_high_water_mark;
  })

credentials :
    (c : Option Credentials) (s : Str)
    → read_option read_credentials (write_option write_credentials c s) ≡ some (c, s)
credentials = read_option_lem read_credentials write_credentials read_credentials_lem

session :
    (c : Option SessionSnapshot) (s : Str)
    → read_option read_session (write_option write_session c s) ≡ some (c, s)
session = read_option_lem read_session write_session read_session_lem

pub state-RoundTrips : RoundTrips write_state read_state
unfolding write_state read_state
state-RoundTrips a =
    elim a.decommissioned
      as (λ d.
        read_state (write_state (record a { decommissioned = d }))
        ≡ some (record a { decommissioned = d })) [
          | true ↦ rw (credentials a.credentials _, session a.session _) refl
          | false ↦ rw (credentials a.credentials _, session a.session _) refl
        ]

-- Whole seconds, toward zero.
unfoldable pub seconds : ℤ → ℤ
unfolding tdiv
seconds d = tdiv d 1000000000

abbrev pub external : External
external = record {
  from_std = some;
  num_seconds = seconds;
  to_json = write_state;
  from_json = read_state;
}
