-- ===== src/Storage/Atomic.antt =====
-- What saves leave on disk, and what loading then gives.
use taymna.Common.{
  ◌≡◌, refl, ◌⊎◌, Option, none, some, List, [], ◌∷◌, arith, DateTime, Bool, true, false, ◌≢◌,
  if◌then◌else◌, Option-cases, inl, inr,
}
use taymna.Common.Text.{Str}
use taymna.Storage.{AgentState, ok, Disk, written, write_failed, SaveIo, save, load}

abbrev pub succeeds : SaveIo → Bool
succeeds io = elim io.write [
  | write_failed _ _ ↦ false
  | written ↦ elim io.harden [
    | some _ ↦ false
    | none ↦ elim io.rename [ some _ ↦ false | none ↦ true ]
  ]
]

-- The last of some states whose save succeeds.
abbrev pub last_saved : Option AgentState → List (AgentState × SaveIo) → Option AgentState
last_saved last [] = last
last_saved last ((state, io) ∷ saves) = last_saved (if succeeds io then some state else last) saves

module _ (to_json : AgentState → Str) where
  -- Wherever a save stops, `state.json` is as it was before or holds the whole new state, and it
  -- holds the new one exactly when the save succeeds.
  pub save_atomic :
      (disk : Disk) (state : AgentState) (io : SaveIo)
      → let (disk', result) = save to_json disk state io in
        ((result ≡ ok tt) × (disk'.state_json ≡ some (to_json state)))
        ⊎ ((result ≢ ok tt) × (disk'.state_json ≡ disk.state_json))
  unfolding save
  save_atomic disk state io = ground arith

  unfoldable pub save_all : Disk → List (AgentState × SaveIo) → Disk
  save_all disk [] = disk
  save_all disk ((state, io) ∷ saves) = save_all (save to_json disk state io).0 saves

  -- What `state.json` holds when `last` was saved last.
  abbrev pub contents_of : Disk → Option AgentState → Option Str
  contents_of disk none = disk.state_json
  contents_of disk (some state) = some (to_json state)

  pub save_all-contents :
      (start disk : Disk) (last : Option AgentState) (saves : List (AgentState × SaveIo))
      → disk.state_json ≡ contents_of start last
      → (save_all disk saves).state_json ≡ contents_of start (last_saved last saves)
  unfolding save_all
  save_all-contents start disk last [] h = h
  save_all-contents start disk last ((state, io) ∷ saves) h =
      save_all-contents start (save to_json disk state io).0
        (if succeeds io then some state else last) saves (unfold save in ground arith)

-- Serialising and parsing a state gives it back.
abbrev pub RoundTrips : (AgentState → Str) → (Str → Option AgentState) → Type 0
RoundTrips to_json from_json = (state : AgentState) → from_json (to_json state) ≡ some state

-- If a state parses back from its serialisation, then after any saves, of which each may have
-- failed or crashed at any call, loading gives the last state whose save succeeded, or what it
-- would have given before them if none did.
pub load-save_all :
    (to_json : AgentState → Str) (from_json : Str → Option AgentState)
    → RoundTrips to_json from_json
    → (disk : Disk) (saves : List (AgentState × SaveIo)) (now : DateTime)
    → load from_json (save_all to_json disk saves) none now
      ≡ elim (last_saved none saves) [ none ↦ load from_json disk none now | some state ↦ ok state ]
unfolding load
load-save_all to_json from_json law disk saves now =
    let stored = save_all-contents to_json disk disk none saves refl in
    elim (Option-cases (last_saved none saves)) [
      | inl e ↦ ground arith
      | inr (state, e) ↦ ground (arith, law state)
    ]
