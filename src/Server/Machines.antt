-- ===== src/Server/Machines.antt =====
-- api/src/modules/machines/machines.service.ts and api/src/modules/realtime/connection-registry.service.ts:
-- the row of one machine, its tokens and its connection. `hash_of` and `verify` are argon2's.
pub mod Removal
pub mod Tokens
use taymna.Common.{
  ℕ, ◌+◌, ◌*◌, Bool, true, false, not, ◌&&◌, ◌||◌, Option, none, some, List, [], ◌∷◌, ◌++◌, map,
  ltb, leb, if◌then◌else◌,
}
use taymna.Common.Equality.{◌==◌, nat_eq, list_eq}
use taymna.Common.Text.{Str}
use taymna.Server.{Time, HttpResult, ok, err, bad_request, not_found}

pub record Machine : Type 0 where
  pub credential_hash : Option Str
  pub credential_revoked_at : Option Time
  pub decommission_requested_at : Option Time
  pub last_seen_at : Option Time

pub record EnrollmentToken : Type 0 where
  pub id : Str
  pub token_hash : Str
  pub expires_at : Time
  pub used_at : Option Time

-- The row, the tokens that were issued for it, and whether an agent's socket is registered.
pub record Slice : Type 0 where
  pub row : Option Machine
  pub tokens : List EnrollmentToken
  pub connected : Bool

-- What leaves the server: a message or a close code on the machine's socket, if it has one, a close
-- code on a new socket that is not registered, and what operators are told.
pub data Sent : Type 0 where
  decommission session_state : Sent
  close : (code : ℕ) → Sent
  reject : (code : ℕ) → Sent
  machine_decommissioning machine_removed : Sent

abbrev is_some {ℓ} : {A : Type ℓ} → Option A → Bool
is_some none = false
is_some (some _) = true

abbrev pub has_usable_credential : Machine → Bool
has_usable_credential m = is_some m.credential_hash && not (is_some m.credential_revoked_at)

abbrev pub to_socket : Bool → Sent → List Sent
to_socket true s = s ∷ []
to_socket false s = []

-- `disconnectMachine`.
abbrev pub disconnect : ℕ → Slice → Slice × List Sent
disconnect code s = (record s { connected = false }, to_socket s.connected (close code))

-- The deletion of the row cascades to its tokens.
abbrev deleted : Slice → Slice
deleted s = record s { row = none; tokens = [] }

unfoldable pub hard_delete : Slice → Slice × List Sent
hard_delete s = let (s', sent) = disconnect 4002 s in (deleted s', sent ++ machine_removed ∷ [])

abbrev revoked : Option Machine → Time → Slice → Slice × List Sent
revoked none now s = (s, [])
revoked (some m) now s = disconnect 4001 (record s {
  row = some (record m { credential_hash = none; credential_revoked_at = some now });
})

unfoldable pub revoke_credential : Time → Slice → Slice × List Sent
revoke_credential now s = revoked s.row now s

-- An update of one column of the row, which fails if the row is gone.
abbrev mark : Time → Option Machine → Slice → Slice × List Sent
mark now none s = (s, [])
mark now (some m) s = (
  record s { row = some (record m { decommission_requested_at = some now }) },
  machine_decommissioning ∷ to_socket s.connected decommission,
)

abbrev asked_before : Option Time → Time → Slice → Slice × List Sent
asked_before (some _) now s = (s, to_socket s.connected decommission)
asked_before none now s = mark now s.row s

-- `requestDecommission` behind the statement that reads the row: `m` is what it read. Another
-- request may have changed the row since.
unfoldable pub remove_read : Machine → Time → Slice → Slice × List Sent
unfolding hard_delete
remove_read m now s =
    if has_usable_credential m
    then asked_before m.decommission_requested_at now s
    else hard_delete s

abbrev removing : Option Machine → Time → Slice → Slice × List Sent
unfolding remove_read
removing none now s = (s, [])
removing (some m) now s = remove_read m now s

unfoldable pub request_decommission : Time → Slice → Slice × List Sent
unfolding remove_read
request_decommission now s = removing s.row now s

abbrev pub is_pending : Option Machine → Bool
is_pending none = false
is_pending (some m) = is_some m.decommission_requested_at

unfoldable pub finalize_decommission : Slice → Slice × List Sent
finalize_decommission s =
    let (s', sent) = disconnect 4003 (deleted s) in
    if is_pending s.row then (s', sent ++ machine_removed ∷ []) else (s, [])

unfoldable pub record_heartbeat : Time → Slice → Slice × List Sent
record_heartbeat now s = elim s.row [
  | none ↦ (s, [])
  | some m ↦ (record s { row = some (record m { last_seen_at = some now }) }, [])
]

unfoldable pub issue_enrollment_token : EnrollmentToken → Slice → Slice × List Sent
issue_enrollment_token token s = elim s.row [
  | none ↦ (s, [])
  | some m ↦ (record s { tokens = token ∷ s.tokens }, [])
]

abbrev pub find_token : Str → List EnrollmentToken → Option EnrollmentToken
find_token id [] = none
find_token id (k ∷ ks) = if k.id == id then some k else find_token id ks

-- `generateSecret` gives the new secret and `hashSecret` its hash; both are arguments.
module _ (verify : Str → Str → Bool) where
  abbrev redeemable : Option EnrollmentToken → Str → Time → HttpResult EnrollmentToken
  redeemable none secret now = err bad_request
  redeemable (some k) secret now =
      if is_some k.used_at || leb k.expires_at now || not (verify k.token_hash secret)
      then err bad_request
      else ok k

  -- `enroll` up to its transaction. The token is already split.
  unfoldable pub check_token : (id secret : Str) → Time → Slice → HttpResult EnrollmentToken
  check_token id secret now s = redeemable (find_token id s.tokens) secret now

  -- A token or a credential of this text is accepted.
  abbrev pub accepts : Option Machine → Str → Bool
  accepts none secret = false
  accepts (some m) secret = elim m.credential_hash [
    | none ↦ false
    | some hash ↦ not (is_some m.credential_revoked_at) && verify hash secret
  ]

  -- `authenticateAgent` of the gateway; the session that it sends is in Push.antt. A socket that was
  -- registered before is replaced.
  unfoldable pub authenticate_agent : Str → Time → Slice → Slice × List Sent
  unfolding record_heartbeat
  authenticate_agent secret now s =
      if accepts s.row secret
      then (
        (record_heartbeat now (record s { connected = true })).0,
        to_socket s.connected (close 4000)
            ++ (if is_pending s.row then decommission else session_state) ∷ [],
      )
      else (s, reject 4001 ∷ [])

abbrev use_token : Str → Time → EnrollmentToken → EnrollmentToken
use_token id now k = if k.id == id then record k { used_at = some now } else k

abbrev credentialed : Option Machine → Str → Option Machine
credentialed none hash = none
credentialed (some m) hash =
    some (record m { credential_hash = some hash; credential_revoked_at = none })

-- The transaction of `enroll`, for a token that has been checked.
unfoldable pub redeem : EnrollmentToken → Str → Time → Slice → Slice × List Sent
redeem k hash now s =
    (record s { tokens = map (use_token k.id now) s.tokens; row = credentialed s.row hash }, [])

abbrev redeeming : HttpResult EnrollmentToken → Str → Time → Slice → Slice × List Sent
unfolding redeem
redeeming (err e) hash now s = (s, [])
redeeming (ok k) hash now s = redeem k hash now s

-- The requests, and the agent's messages, each taken as a whole.
pub data Operation : Type 0 where
  revoke remove : Time → Operation
  acknowledge disconnected : Operation
  connect : (secret : Str) (now : Time) → Operation
  heartbeat : Time → Operation
  issue : EnrollmentToken → Operation
  enroll : (id secret hash : Str) (now : Time) → Operation

module _ (verify : Str → Str → Bool) where
  unfoldable pub perform : Operation → Slice → Slice × List Sent
  unfolding revoke_credential request_decommission finalize_decommission record_heartbeat
      issue_enrollment_token check_token redeem authenticate_agent
  perform (revoke now) s = revoke_credential now s
  perform (remove now) s = request_decommission now s
  perform acknowledge s = finalize_decommission s
  perform (connect secret now) s = authenticate_agent verify secret now s
  perform disconnected s = (record s { connected = false }, [])
  perform (heartbeat now) s = record_heartbeat now s
  perform (issue token) s = issue_enrollment_token token s
  perform (enroll id secret hash now) s = redeeming (check_token verify id secret now s) hash now s

  unfoldable pub perform_all : List Operation → Slice → Slice
  unfolding perform
  perform_all [] s = s
  perform_all (o ∷ os) s = perform_all os (perform o s).0
