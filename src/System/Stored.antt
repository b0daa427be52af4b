-- ===== src/System/Stored.antt =====
-- What a start finds on disk and what an enrollment leaves there.
use taymna.Common.{
  ◌≡◌, ◌≢◌, refl, true, false, none, some, Option, arith, inl, inr, Option-cases, DateTime, Instant,
  sym, subst, ◌∙◌, Bool-cases,
}
use taymna.Common.Text.{Str}
use taymna.Storage
use taymna.Storage.{
  AgentState, Credentials, Disk, ErrorKind, invalid_data, SaveIo, load, load_for_enroll,
}
use taymna.Storage.Atomic.{RoundTrips}
use taymna.External.{External}
use taymna.Client.Connection.{drain}
use taymna.Agent.Loop.{Start, load_failed, entered, entering, start}
use taymna.Agent.Durability.{decommissioned_on_disk}
use taymna.Enroll
use taymna.Enroll.{
  EnrollResponse, Answer, unanswered, answered, saved, accepted, enroll, save_enrolled,
  enrolled_state, Enrolled,
}
use taymna.System.{World, commands_of, enroll_actions}
use taymna.System.Lifecycle
use taymna.System.Lifecycle.{Life, managed, stay}
use taymna.System.Lawful.{IsExact, kept, phase, decommissioned_on_disk-save}

module _ (x : External) where
  abbrev pub IsExactStart : Disk → Start → Type 0
  IsExactStart disk (entered c a effects) =
      IsExact x a
      × (a.disk ≡ disk)
      × (drain false (commands_of effects) ≡ true → decommissioned_on_disk x disk ≡ true)
  IsExactStart disk _ = Unit {0}

  entering-IsExactStart :
      (disk : Disk) (state : AgentState) (credentials : Option Credentials) (instant : Instant)
      → decommissioned_on_disk x disk ≡ state.decommissioned
      → IsExactStart disk (entering x disk state credentials instant)
  entering-IsExactStart disk state none instant e = elim (Bool-cases state.decommissioned) [
    | inl d ↦ rw d tt
    | inr d ↦ rw d tt
  ]
  entering-IsExactStart disk state (some c) instant e = (
    (refl, sym e),
    refl,
    elim (Bool-cases state.decommissioned) [
      | inl d ↦ λ _. e ∙ d
      | inr d ↦ rw d (λ f. ground arith)
    ],
  )

  pub start-IsExactStart :
      (disk : Disk) (read : Option ErrorKind) (now : DateTime) (instant : Instant)
      → IsExactStart disk (start x disk read now instant)
  unfolding start load decommissioned_on_disk
  start-IsExactStart disk (some Storage.not_found) now instant = tt
  start-IsExactStart disk (some invalid_data) now instant = tt
  start-IsExactStart disk (some Storage.other) now instant = tt
  start-IsExactStart disk none now instant = elim (Option-cases disk.state_json) [
    | inl n ↦ rw (n, start) tt
    | inr (contents, n) ↦ elim (Option-cases (x.from_json contents)) [
      | inl m ↦
          subst (IsExactStart disk)
            (sym (
              let same : start x disk none now instant ≡ load_failed invalid_data = ground arith in
              same))
            tt
      | inr (state, m) ↦
          subst (IsExactStart disk)
            (sym (
              let same : start x disk none now instant
                  ≡ entering x disk state state.credentials instant =
                ground arith in
              same))
            (entering-IsExactStart disk state state.credentials instant
              (rw (n, decommissioned_on_disk, m) refl))
    ]
  ]

  -- What the file says once an enrollment has ended.
  abbrev IsSettled : Disk → Disk × Enrolled → Type 0
  IsSettled disk (disk', Enroll.ok _) = decommissioned_on_disk x disk' ≡ false
  IsSettled disk (disk', Enroll.err _) =
      decommissioned_on_disk x disk' ≡ decommissioned_on_disk x disk

  saved-IsSettled :
      (disk : Disk) (id : Str) (p : Disk × Storage.Result (Unit {0}))
      → decommissioned_on_disk x p.0 ≡ kept p.1 false (decommissioned_on_disk x disk)
      → IsSettled disk (saved id p)
  saved-IsSettled disk id (disk', Storage.ok _) h = h
  saved-IsSettled disk id (disk', Storage.err e) h = h

module _ (w : World) where
  open w use {external}

  settled-Life :
      (disk : Disk) (p : Disk × Enrolled)
      → IsSettled external disk p
      → Life (phase external disk) (enroll_actions w p.1) (phase external p.0)
  settled-Life disk (disk', Enroll.ok id) h = rw h (Lifecycle.enroll (stay managed))
  settled-Life disk (disk', Enroll.err e) h = rw h (stay _)

  module _ (law : RoundTrips external.to_json external.from_json) where
    save_enrolled-IsSettled :
        (disk : Disk) (server : Str) (r : EnrollResponse) (io : SaveIo)
        (loaded : Disk × Storage.Result AgentState)
        → decommissioned_on_disk external loaded.0 ≡ decommissioned_on_disk external disk
        → IsSettled external disk
            (save_enrolled external w.message_of w.parse_response server r io loaded)
    save_enrolled-IsSettled disk server r io (disk', Storage.err e) h = h
    save_enrolled-IsSettled disk server r io (disk', Storage.ok state) h =
        saved-IsSettled external disk r.machine_id
          (Storage.save external.to_json disk' (enrolled_state state server r) io)
          (rw⁻¹ h
            (decommissioned_on_disk-save external law disk' (enrolled_state state server r) io))

    load_for_enroll-on_disk :
        (disk : Disk) (read rename : Option ErrorKind) (now : DateTime)
        → read ≢ some invalid_data
        → decommissioned_on_disk external
            (load_for_enroll external.from_json disk read rename now).0
          ≡ decommissioned_on_disk external disk
    unfolding load_for_enroll load decommissioned_on_disk
    load_for_enroll-on_disk disk read rename now h = ground arith

    accepted-IsSettled :
        (disk : Disk) (server : Str) (r : Option EnrollResponse) (read rename : Option ErrorKind)
        (now : DateTime) (io : SaveIo)
        → read ≢ some invalid_data
        → IsSettled external disk
            (accepted external w.message_of w.parse_response disk server r read rename now io)
    accepted-IsSettled disk server none read rename now io h = refl
    accepted-IsSettled disk server (some r) read rename now io h =
        save_enrolled-IsSettled disk server r io
          (load_for_enroll external.from_json disk read rename now)
          (load_for_enroll-on_disk disk read rename now h)

    enroll-IsSettled :
        (disk : Disk) (server : Str) (answer : Answer) (read rename : Option ErrorKind)
        (now : DateTime) (io : SaveIo)
        → read ≢ some invalid_data
        → IsSettled external disk
            (enroll external w.message_of w.parse_response disk server answer read rename now io)
    unfolding enroll
    enroll-IsSettled disk server unanswered read rename now io h = refl
    enroll-IsSettled disk server (answered false status body) read rename now io h = refl
    enroll-IsSettled disk server (answered true status none) read rename now io h = refl
    enroll-IsSettled disk server (answered true status (some body)) read rename now io h =
        accepted-IsSettled disk server (w.parse_response body) read rename now io h

    -- An enrollment that succeeds leads back to a managed machine, and one that fails changes nothing.
    pub enroll-Life :
        (disk : Disk) (server : Str) (answer : Answer) (read rename : Option ErrorKind)
        (now : DateTime) (io : SaveIo)
        → read ≢ some invalid_data
        → let p =
            enroll external w.message_of w.parse_response disk server answer read rename now io in
          Life (phase external disk) (enroll_actions w p.1) (phase external p.0)
    enroll-Life disk server answer read rename now io h =
        settled-Life disk
          (enroll external w.message_of w.parse_response disk server answer read rename now io)
          (enroll-IsSettled disk server answer read rename now io h)
