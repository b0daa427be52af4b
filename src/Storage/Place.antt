-- ===== src/Storage/Place.antt =====
-- Where the files of the state directory lie: `Store::new`, `default_state_dir` and the paths of
-- agent/src/storage.rs, with the logs that `windows_service_support` of agent/src/main.rs keeps
-- beside them. A path is a directory and a file name in it.
use taymna.Common.{
  ℕ, ◌≡◌, refl, Bool, true, false, Option, none, some, List, [], ◌∷◌, ◌++◌, All, map, if◌then◌else◌,
}
use taymna.Common.Equality.{◌==◌, nat_eq, list_beq}
use taymna.Common.Text.{Str, codes}
use taymna.Storage.{ErrorKind, Result, ok, err}

record PathBuf : Type 0 where
  directory : Str
  file_name : Str

abbrev dot : ℕ
dot = 46

-- What stands in front of the last dot of a text, if it has one.
abbrev before_last_dot : Str → Option Str
before_last_dot [] = none
before_last_dot (c ∷ cs) = elim (before_last_dot cs) [
  | some s ↦ some (c ∷ s)
  | none ↦ if c == dot then some [] else none
]

abbrev stem_or : Str → Option Str → Str
stem_or name none = name
stem_or name (some []) = name
stem_or name (some (c ∷ cs)) = c ∷ cs

-- `Path::file_stem`; a name with its only dot in front is all stem.
abbrev file_stem : Str → Str
file_stem name = stem_or name (before_last_dot name)

-- `Path::with_extension`
abbrev with_extension : PathBuf → Str → PathBuf
with_extension p extension = record p { file_name = file_stem p.file_name ++ dot ∷ extension }

abbrev join : Str → Str → PathBuf
join directory file_name = record { directory = directory; file_name = file_name }

abbrev in_project : Option Str → Str
in_project none = codes ".taymna-agent"
in_project (some data_dir) = data_dir

-- `env` is `TAYMNA_STATE_DIR`, `data_dir` the directory that `ProjectDirs` gives.
unfoldable default_state_dir : (env data_dir : Option Str) → Str
default_state_dir (some dir) data_dir = dir
default_state_dir none data_dir = in_project data_dir

abbrev override_or : Option Str → Str → Str
override_or none default = default
override_or (some dir) default = dir

abbrev placed : Option ErrorKind → Str → Result PathBuf
placed (some e) dir = err e
placed none dir = ok (join dir (codes "state.json"))

-- `create` is how `create_dir_all` ends.
unfoldable new :
    (override_dir env data_dir : Option Str) (create : Option ErrorKind) → Result PathBuf
unfolding default_state_dir
new override_dir env data_dir create =
    placed create (override_or override_dir (default_state_dir env data_dir))

-- The paths of `save` and of `load_for_enroll`.
abbrev tmp_path : PathBuf → PathBuf
tmp_path path = with_extension path (codes "json.tmp")

abbrev corrupt_path : PathBuf → PathBuf
corrupt_path path = with_extension path (codes "json.corrupt")

-- The files of `log_dispatch_failure`, `install_panic_log` and `init_file_tracing`.
abbrev dispatch_log : Str → PathBuf
dispatch_log dir = join dir (codes "service_dispatch.log")

abbrev panic_log : Str → PathBuf
panic_log dir = join dir (codes "panic.log")

abbrev agent_log : Str → PathBuf
agent_log dir = join dir (codes "agent.log")

abbrev log_paths : Str → List PathBuf
log_paths dir = dispatch_log dir ∷ panic_log dir ∷ agent_log dir ∷ []

abbrev state_paths : PathBuf → List PathBuf
state_paths path = path ∷ tmp_path path ∷ corrupt_path path ∷ []

abbrev is_in : Str → List Str → Bool
is_in name [] = false
is_in name (n ∷ ns) = if list_beq name n then true else is_in name ns

abbrev are_distinct : List Str → Bool
are_distinct [] = true
are_distinct (n ∷ ns) = if is_in n ns then false else are_distinct ns

abbrev IsIn : Str → PathBuf → Type 0
IsIn dir path = path.directory ≡ dir

-- Where the store is made without a directory of its own, its three files and the three logs of the
-- service lie in one directory, under six different names: no log is written over the state, and
-- neither what a save writes first nor what an enrollment sets aside is `state.json`.
new_distinct :
    (env data_dir : Option Str)
    → let dir = default_state_dir env data_dir in
      let path = join dir (codes "state.json") in
      let paths = state_paths path ++ log_paths dir in
      (new none env data_dir none ≡ ok path)
      × All (IsIn dir) paths
      × (are_distinct (map (λ p. p.file_name) paths) ≡ true)
unfolding new
new_distinct env data_dir = (refl, (refl, (refl, (refl, (refl, (refl, (refl, tt)))))), refl)
