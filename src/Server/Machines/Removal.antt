-- ===== src/Server/Machines/Removal.antt =====
-- What becomes of a machine that an agent can authenticate for.
use taymna.Common.{
  ◌≡◌, ◌≢◌, inl, inr, refl, Bool, true, false, none, some, List, [], ◌∷◌, ◌++◌, arith, Option-cases,
}
use taymna.Common.Text.{Str}
use taymna.Server.{Time}
use taymna.Client.{finalized}
use taymna.Client.Connection.{close_outcome}
use taymna.Server.Machines.{
  to_socket, machine_removed, Machine, EnrollmentToken, Slice, decommission, has_usable_credential,
  is_pending, hard_delete, revoke_credential, remove_read, request_decommission,
  finalize_decommission, record_heartbeat, issue_enrollment_token, redeem, authenticate_agent,
  accepts, close, reject, perform_all, Operation, revoke, remove, acknowledge, connect,
  disconnected, heartbeat, issue, enroll, perform,
}

module _ (verify : Str → Str → Bool) where
  -- Of a machine with a usable credential, whatever request or message is taken as a whole, the row
  -- goes only by an acknowledgement, and only if the machine was asked to go.
  removed_acknowledged :
      (o : Operation) (s : Slice) (m : Machine)
      → s.row ≡ some m
      → has_usable_credential m ≡ true
      → (perform verify o s).0.row ≡ none
      → (o ≡ acknowledge) × (m.decommission_requested_at ≢ none)
  unfolding perform request_decommission remove_read finalize_decommission revoke_credential
      record_heartbeat issue_enrollment_token redeem authenticate_agent
  removed_acknowledged (revoke now) s m e u h = ground arith
  removed_acknowledged (remove now) s m e u h = ground arith
  removed_acknowledged acknowledge s m e u h = ground arith
  removed_acknowledged (connect secret now) s m e u h = ground arith
  removed_acknowledged disconnected s m e u h = ground arith
  removed_acknowledged (heartbeat now) s m e u h = ground arith
  removed_acknowledged (issue token) s m e u h = ground arith
  removed_acknowledged (enroll id secret hash now) s m e u h = ground arith

  gone_stays : (o : Operation) (s : Slice) → s.row ≡ none → (perform verify o s).0.row ≡ none
  unfolding perform request_decommission finalize_decommission revoke_credential record_heartbeat
      issue_enrollment_token redeem authenticate_agent
  gone_stays (revoke now) s e = ground arith
  gone_stays (remove now) s e = ground arith
  gone_stays acknowledge s e = ground arith
  gone_stays (connect secret now) s e = ground arith
  gone_stays disconnected s e = ground arith
  gone_stays (heartbeat now) s e = ground arith
  gone_stays (issue token) s e = ground arith
  gone_stays (enroll id secret hash now) s e = ground arith

  gone_forever :
      (os : List Operation) (s : Slice) → s.row ≡ none → (perform_all verify os s).row ≡ none
  unfolding perform_all
  gone_forever [] s e = e
  gone_forever (o ∷ os) s e = gone_forever os (perform verify o s).0 (gone_stays o s e)

  connect_pending :
      (s : Slice) (secret : Str) (now : Time)
      → accepts verify s.row secret ≡ true
      → is_pending s.row ≡ true
      → let (told, sent) = authenticate_agent verify secret now s in
        (is_pending told.row ≡ true)
        × (told.connected ≡ true)
        × (sent ≡ to_socket s.connected (close 4000) ++ decommission ∷ [])
  unfolding authenticate_agent record_heartbeat
  connect_pending s secret now h k = elim (Option-cases s.row) [
    | inl e ↦ let off = rw e at k in ground arith
    | inr (m, e) ↦ let on = rw e at k in ground arith
  ]

  acknowledge_pending :
      (s : Slice)
      → is_pending s.row ≡ true
      → s.connected ≡ true
      → let (removed, sent) = finalize_decommission s in
        (removed.row ≡ none) × (sent ≡ close 4003 ∷ machine_removed ∷ [])
  unfolding finalize_decommission
  acknowledge_pending s h k = rw (h, k) (refl, refl)

  connect_gone :
      (s : Slice) (secret : Str) (now : Time)
      → s.row ≡ none
      → (authenticate_agent verify secret now s).1 ≡ reject 4001 ∷ []
  unfolding authenticate_agent
  connect_gone s secret now e = ground arith

  -- An agent that connects with a credential that the server accepts, while the machine is to go,
  -- is told to relinquish control and not of a session. When it acknowledges on that connection the
  -- row is gone and the connection is closed with a code that its client takes for the end; and
  -- whatever happens later, every connection with the old credential is refused with a code that a
  -- client that has acknowledged takes for the end, too.
  pub handover :
      (s : Slice) (secret : Str) (now later : Time) (os : List Operation) (ack : Bool)
      → accepts verify s.row secret ≡ true
      → is_pending s.row ≡ true
      → let (told, first) = perform verify (connect secret now) s in
        let (removed, last) = perform verify acknowledge told in
        let refused = (perform verify (connect secret later) (perform_all verify os removed)).1 in
        (first ≡ to_socket s.connected (close 4000) ++ decommission ∷ [])
        × (removed.row ≡ none)
        × (last ≡ close 4003 ∷ machine_removed ∷ [])
        × (close_outcome ack (some 4003) ≡ finalized)
        × (refused ≡ reject 4001 ∷ [])
        × (close_outcome true (some 4001) ≡ finalized)
  unfolding perform
  handover s secret now later os ack h k =
      let told = (authenticate_agent verify secret now s).0 in
      let (pending, registered, first) = connect_pending s secret now h k in
      let (gone, last) = acknowledge_pending told pending registered in
      let removed = (finalize_decommission told).0 in
      let refused =
        connect_gone (perform_all verify os removed) secret later (gone_forever os removed gone) in
      (first, gone, last, refl, refused, refl)

  -- A removal that has read the row before an enrollment is finished deletes the machine that has
  -- just been enrolled: the row had no usable credential when it was read, it has one when it goes,
  -- and nothing that is sent asks the agent to relinquish control.
  pub remove_read_overtaken :
      (s : Slice) (m : Machine) (k : EnrollmentToken) (hash : Str) (now at : Time)
      → s.row ≡ some m
      → has_usable_credential m ≡ false
      → let enrolled = (redeem k hash at s).0 in
        let (after, sent) = remove_read m now enrolled in
        ((n : Machine) × (enrolled.row ≡ some n) × (has_usable_credential n ≡ true))
        × (after.row ≡ none)
        × (sent ≡ to_socket s.connected (close 4002) ++ machine_removed ∷ [])
  unfolding redeem remove_read hard_delete
  remove_read_overtaken s m k hash now at e u = (
    (record m { credential_hash = some hash; credential_revoked_at = none }, rw e, refl),
    ground arith,
    ground arith,
  )
