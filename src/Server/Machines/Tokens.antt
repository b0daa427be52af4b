-- ===== src/Server/Machines/Tokens.antt =====
-- What a token is good for.
use taymna.Common.{
  ◌≡◌, ◌≢◌, ◌⊎◌, inl, inr, refl, Bool, true, false, Option, none, some, List, [], ◌∷◌, map, arith,
  All, Option-cases, Bool-cases, sym, ◌∙◌,
}
use taymna.Common.Equality.{◌==◌, ==_iff, nat_eq, list_eq}
use taymna.Common.Text.{Str}
use taymna.Server.{Time, HttpResult, ok, err, bad_request}
use taymna.Server.Machines.{
  redeemable, redeeming, Machine, EnrollmentToken, Slice, has_usable_credential, find_token,
  use_token, check_token, redeem, Operation, revoke, remove, acknowledge, connect, disconnected,
  heartbeat, issue, enroll, perform, perform_all, hard_delete, revoke_credential, remove_read,
  request_decommission, finalize_decommission, record_heartbeat, issue_enrollment_token,
  authenticate_agent,
}

-- Every token with this id has been used.
abbrev IsSpent : Str → List EnrollmentToken → Type 0
IsSpent id = All λ k. (k.id == id) ≡ true → k.used_at ≢ none

-- A new token has an id of its own.
abbrev pub IssuesOther : Str → Operation → Type 0
IssuesOther id (issue token) = (token.id == id) ≡ false
IssuesOther id _ = Unit {0}

module _ (verify : Str → Str → Bool) where
  spent_refused :
      (id secret : Str) (now : Time) (ks : List EnrollmentToken)
      → IsSpent id ks
      → redeemable verify (find_token id ks) secret now ≡ err bad_request
  spent_refused id secret now [] h = refl
  spent_refused id secret now (k ∷ ks) (p, h) = ground (arith, spent_refused id secret now ks h)

  use_token-IsSpent :
      (id other : Str) (now : Time) (ks : List EnrollmentToken)
      → IsSpent id ks
      → IsSpent id (map (use_token other now) ks)
  use_token-IsSpent id other now [] h = tt
  use_token-IsSpent id other now (k ∷ ks) (p, h) =
      (λ e. ground arith, use_token-IsSpent id other now ks h)

  used-IsSpent :
      (id : Str) (now : Time) (ks : List EnrollmentToken) → IsSpent id (map (use_token id now) ks)
  used-IsSpent id now [] = tt
  used-IsSpent id now (k ∷ ks) = (λ e. ground arith, used-IsSpent id now ks)

  -- The tokens behind a request that makes and redeems none.
  Leaves : Slice → Slice → Type 0
  Leaves s s' = (s'.tokens ≡ s.tokens) ⊎ (s'.tokens ≡ [])

  Leaves-IsSpent :
      (id : Str) (s s' : Slice) → Leaves s s' → IsSpent id s.tokens → IsSpent id s'.tokens
  unfolding Leaves
  Leaves-IsSpent id s s' (inl e) h = rw (e) h
  Leaves-IsSpent id s s' (inr e) h = rw (e) tt

  revoke-Leaves : (now : Time) (s : Slice) → Leaves s (revoke_credential now s).0
  unfolding Leaves revoke_credential
  revoke-Leaves now s = ground arith

  remove-Leaves : (now : Time) (s : Slice) → Leaves s (request_decommission now s).0
  unfolding Leaves request_decommission remove_read hard_delete
  remove-Leaves now s = ground arith

  finalize-Leaves : (s : Slice) → Leaves s (finalize_decommission s).0
  unfolding Leaves finalize_decommission
  finalize-Leaves s = ground arith

  connect-Leaves :
      (secret : Str) (now : Time) (s : Slice) → Leaves s (authenticate_agent verify secret now s).0
  unfolding Leaves authenticate_agent record_heartbeat
  connect-Leaves secret now s = ground arith

  heartbeat-Leaves : (now : Time) (s : Slice) → Leaves s (record_heartbeat now s).0
  unfolding Leaves record_heartbeat
  heartbeat-Leaves now s = ground arith

  issue-IsSpent :
      (id : Str) (token : EnrollmentToken) (s : Slice)
      → (token.id == id) ≡ false
      → IsSpent id s.tokens
      → IsSpent id (issue_enrollment_token token s).0.tokens
  unfolding issue_enrollment_token
  issue-IsSpent id token s i h = elim (Option-cases s.row) [
    | inl e ↦ rw (e) h
    | inr (m, e) ↦ rw (e) ((λ k. ground arith), h)
  ]

  redeeming-IsSpent :
      (id hash : Str) (result : HttpResult EnrollmentToken) (now : Time) (s : Slice)
      → IsSpent id s.tokens
      → IsSpent id (redeeming result hash now s).0.tokens
  unfolding redeem
  redeeming-IsSpent id hash (err e) now s h = h
  redeeming-IsSpent id hash (ok k) now s h = use_token-IsSpent id k.id now s.tokens h

  perform-IsSpent :
      (id : Str) (o : Operation) (s : Slice)
      → IssuesOther id o
      → IsSpent id s.tokens
      → IsSpent id (perform verify o s).0.tokens
  unfolding perform Leaves
  perform-IsSpent id (revoke now) s i h =
      Leaves-IsSpent id s (revoke_credential now s).0 (revoke-Leaves now s) h
  perform-IsSpent id (remove now) s i h =
      Leaves-IsSpent id s (request_decommission now s).0 (remove-Leaves now s) h
  perform-IsSpent id acknowledge s i h =
      Leaves-IsSpent id s (finalize_decommission s).0 (finalize-Leaves s) h
  perform-IsSpent id disconnected s i h = h
  perform-IsSpent id (connect secret now) s i h =
      Leaves-IsSpent id s (authenticate_agent verify secret now s).0 (connect-Leaves secret now s) h
  perform-IsSpent id (heartbeat now) s i h =
      Leaves-IsSpent id s (record_heartbeat now s).0 (heartbeat-Leaves now s) h
  perform-IsSpent id (issue token) s i h = issue-IsSpent id token s i h
  perform-IsSpent id (enroll other secret hash now) s i h =
      redeeming-IsSpent id hash (check_token verify other secret now s) now s h

  perform_all-IsSpent :
      (id : Str) (os : List Operation) (s : Slice)
      → All (IssuesOther id) os
      → IsSpent id s.tokens
      → IsSpent id (perform_all verify os s).tokens
  unfolding perform_all
  perform_all-IsSpent id [] s i h = h
  perform_all-IsSpent id (o ∷ os) s (i, is) h =
      perform_all-IsSpent id os (perform verify o s).0 is (perform-IsSpent id o s i h)

  found_id :
      (id : Str) (ks : List EnrollmentToken) (k : EnrollmentToken)
      → find_token id ks ≡ some k
      → (k.id == id) ≡ true
  found_id id [] k h = ground arith
  found_id id (l ∷ ks) k h = elim (Bool-cases (l.id == id)) [
    | inl e ↦
        let found : some l ≡ some k = rw e at h in let same : l ≡ k = ground arith in rw (← same) e
    | inr e ↦ found_id id ks k (rw e at h)
  ]

  redeemable_id :
      (id secret : Str) (now : Time) (found : Option EnrollmentToken) (k : EnrollmentToken)
      → redeemable verify found secret now ≡ ok k
      → found ≡ some k
  redeemable_id id secret now none k h = ground arith
  redeemable_id id secret now (some l) k h = ground arith

  -- A token is good for one enrollment: once it has been accepted for one, it is refused, whatever
  -- text is presented with its id, whatever requests and messages, each taken as a whole, came in
  -- between; new tokens have ids of their own.
  pub enroll_once :
      (id secret hash again : Str) (now later : Time) (os : List Operation) (s : Slice)
      (k : EnrollmentToken)
      → check_token verify id secret now s ≡ ok k
      → All (IssuesOther id) os
      → let after = perform_all verify os (perform verify (enroll id secret hash now) s).0 in
        check_token verify id again later after ≡ err bad_request
  unfolding perform check_token redeem
  enroll_once id secret hash again now later os s k success is =
      let found = redeemable_id id secret now (find_token id s.tokens) k success in
      let same = (==_iff k.id id).0 (found_id id s.tokens k found) in
      let spent : IsSpent id (perform verify (enroll id secret hash now) s).0.tokens =
        rw (success, same) (used-IsSpent id now s.tokens) in
      let after = perform_all verify os (perform verify (enroll id secret hash now) s).0 in
      spent_refused id again later after.tokens
        (perform_all-IsSpent id os (perform verify (enroll id secret hash now) s).0 is spent)

  -- Two enrollments with one token that have both been checked before either is finished both
  -- succeed, and the machine is left with the credential of the later one.
  pub enroll_twice :
      (id secret first second : Str) (now at now' at' : Time) (s : Slice) (m : Machine)
      (k l : EnrollmentToken)
      → s.row ≡ some m
      → check_token verify id secret now s ≡ ok k
      → check_token verify id secret now' s ≡ ok l
      → let after = (redeem l second at' (redeem k first at s).0).0 in
        (k ≡ l)
        × ((n : Machine) × (after.row ≡ some n)
            × (n.credential_hash ≡ some second)
            × (has_usable_credential n ≡ true))
  unfolding redeem check_token
  enroll_twice id secret first second now at now' at' s m k l e c d =
      let found = redeemable_id id secret now (find_token id s.tokens) k c in
      let again = redeemable_id id secret now' (find_token id s.tokens) l d in
      let same : some k ≡ some l = sym found ∙ again in
      (
        ground arith,
        (
          record m { credential_hash = some second; credential_revoked_at = none },
          rw e,
          refl,
          refl,
        ),
      )
