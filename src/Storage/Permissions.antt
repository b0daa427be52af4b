-- ===== src/Storage/Permissions.antt =====
-- Who may read the files of the state directory: `harden_permissions` and `save` of
-- agent/src/storage.rs, beside what they do to the contents (Storage.antt).
use taymna.Common.{
  ℕ, ◌≡◌, refl, ◌⊎◌, inl, inr, Option-cases, Bool, true, Option, none, some, List, [], ◌∷◌, arith,
  if◌then◌else◌,
}
use taymna.Common.Text.{Str}
use taymna.Storage.{AgentState, ErrorKind, Disk, Write, written, write_failed, SaveIo, save}
use taymna.Storage.Atomic.{last_saved, save_all, succeeds, save_all-contents}

-- 0o600
abbrev pub owner_only : ℕ
owner_only = 384

-- The modes of `state.json` and `state.json.tmp`; that of a file that does not exist says nothing.
pub record Modes : Type 0 where
  pub state_json : ℕ
  pub state_json_tmp : ℕ

-- `created` is the mode that the system gives a new file, which depends on the umask of the process.
module _ (unix : Bool) (created : ℕ) where
  -- A file that exists keeps its mode when it is written.
  abbrev written_mode : Option Str → ℕ → ℕ
  written_mode none old = created
  written_mode (some _) old = old

  -- `harden_permissions`, and the mode of the file before and after.
  abbrev harden_permissions : Option ErrorKind → ℕ → ℕ
  harden_permissions none mode = if unix then owner_only else mode
  harden_permissions (some _) mode = mode

  abbrev rename_mode : Option ErrorKind → Modes → Modes
  rename_mode none modes = record modes { state_json = modes.state_json_tmp }
  rename_mode (some _) modes = modes

  abbrev renamed_modes : (harden rename : Option ErrorKind) → Modes → Modes
  renamed_modes none rename modes = rename_mode rename modes
  renamed_modes (some _) rename modes = modes

  abbrev hardened_modes : Write → SaveIo → Modes → Modes
  hardened_modes (write_failed _ _) io modes = modes
  hardened_modes written io modes =
      renamed_modes io.harden io.rename
        (record modes { state_json_tmp = harden_permissions io.harden modes.state_json_tmp })

  -- What `save` makes of the modes.
  unfoldable pub save_modes : Disk → SaveIo → Modes → Modes
  save_modes disk io modes =
      hardened_modes io.write io
        (record modes { state_json_tmp = written_mode disk.state_json_tmp modes.state_json_tmp })

  module _ (to_json : AgentState → Str) where
    unfoldable pub save_all_modes : Disk → List (AgentState × SaveIo) → Modes → Modes
    save_all_modes disk [] modes = modes
    save_all_modes disk ((state, io) ∷ saves) modes =
        save_all_modes (save to_json disk state io).0 saves (save_modes disk io modes)

module _ (created : ℕ) (to_json : AgentState → Str) where
  -- What the mode of `state.json` is when `last` was saved last.
  abbrev mode_of : Modes → Option AgentState → ℕ
  mode_of modes none = modes.state_json
  mode_of modes (some _) = owner_only

  save_modes-mode_of :
      (start : Modes) (disk : Disk) (last : Option AgentState) (state : AgentState) (io : SaveIo)
      (modes : Modes)
      → modes.state_json ≡ mode_of start last
      → (save_modes true created disk io modes).state_json
        ≡ mode_of start (if succeeds io then some state else last)
  unfolding save_modes
  save_modes-mode_of start disk last state io modes h = ground arith

  save_all_modes-mode_of :
      (start : Modes) (disk : Disk) (last : Option AgentState) (saves : List (AgentState × SaveIo))
      (modes : Modes)
      → modes.state_json ≡ mode_of start last
      → (save_all_modes true created to_json disk saves modes).state_json
        ≡ mode_of start (last_saved last saves)
  unfolding save_all_modes
  save_all_modes-mode_of start disk last [] modes h = h
  save_all_modes-mode_of start disk last ((state, io) ∷ saves) modes h =
      save_all_modes-mode_of start (save to_json disk state io).0
        (if succeeds io then some state else last) saves (save_modes true created disk io modes)
        (save_modes-mode_of start disk last state io modes h)

  -- On Unix, whatever mode a new file gets, and whichever of any saves fail or crash at any call:
  -- if one has succeeded, then `state.json` holds the last state whose save did and only its owner
  -- may read it, and otherwise both its contents and its mode are as they were.
  pub save_all-owner_only :
      (disk : Disk) (saves : List (AgentState × SaveIo)) (modes : Modes)
      → let contents = (save_all to_json disk saves).state_json in
        let mode = (save_all_modes true created to_json disk saves modes).state_json in
        ((state : AgentState) × (last_saved none saves ≡ some state)
          × (contents ≡ some (to_json state))
          × (mode ≡ owner_only))
        ⊎ ((last_saved none saves ≡ none)
            × (contents ≡ disk.state_json)
            × (mode ≡ modes.state_json))
  save_all-owner_only disk saves modes =
      let contents = save_all-contents to_json disk disk none saves refl in
      let mode = save_all_modes-mode_of modes disk none saves modes refl in
      elim (Option-cases (last_saved none saves)) [
        | inl e ↦ inr (e, rw e at contents, rw e at mode)
        | inr (state, e) ↦ inl (state, e, rw e at contents, rw e at mode)
      ]

  -- A save that ends between its write and `harden_permissions` leaves the whole state, with the
  -- secret in it, in a file of the mode that new files get.
  save-unhardened :
      (unix : Bool) (disk : Disk) (state : AgentState) (modes : Modes) (e : ErrorKind)
      (rename : Option ErrorKind)
      → disk.state_json_tmp ≡ none
      → let io : SaveIo = record { write = written; harden = some e; rename = rename } in
        ((save to_json disk state io).0.state_json_tmp ≡ some (to_json state))
        × ((save_modes unix created disk io modes).state_json_tmp ≡ created)
  unfolding save save_modes
  save-unhardened unix disk state modes e rename h = rw h (refl, refl)
