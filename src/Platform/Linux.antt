-- ===== src/Platform/Linux.antt =====
-- agent/src/platform/linux.rs: finding the desktop session, and the notifier. What the child
-- processes print is an input; what is run is the list of runs.
pub mod Desktop
pub mod Notifier
use taymna.Common.{
  ℕ, zero, suc, ◌+◌, ◌-◌, ◌*◌, ◌^◌, Bool, true, false, not, ◌&&◌, ◌||◌, Option, none, some, List,
  [], ◌∷◌, ◌++◌, if◌then◌else◌, nat_beq, leb, ltb,
}
use taymna.Common.Equality.{◌==◌, nat_eq, list_eq, option_eq}
use taymna.Common.Int.{ℤ, pos, negsuc, leb_ℤ}
use taymna.Common.Text.{Str, codes, strip_prefix, to_string}
use taymna.Warning.{
  Notice, Urgency, normal, critical, WarningEffect, notify, show_final_warning,
  dismiss_final_warning,
}
use taymna.Platform.{app_name, final_warning_headline, final_warning_body}

-- `char::is_whitespace`.
abbrev is_whitespace : ℕ → Bool
is_whitespace c =
    (leb 9 c && leb c 13)
    || nat_beq c 32
    || nat_beq c 133
    || nat_beq c 160
    || nat_beq c 5760
    || (leb 8192 c && leb c 8202)
    || nat_beq c 8232
    || nat_beq c 8233
    || nat_beq c 8239
    || nat_beq c 8287
    || nat_beq c 12288

abbrev starts_with_feed : Str → Bool
starts_with_feed [] = false
starts_with_feed (c ∷ s) = nat_beq c 10

abbrev first_line : ℕ → List Str → List Str
first_line c [] = (c ∷ []) ∷ []
first_line c (l ∷ ls) = (c ∷ l) ∷ ls

-- `str::lines`: a line ends with a line feed, or with a carriage return and a line feed.
unfoldable pub lines : Str → List Str
lines [] = []
lines (c ∷ s) =
    let rest = lines s in
    if nat_beq c 10
    then [] ∷ rest
    else if nat_beq c 13 && starts_with_feed s
    then rest
    else first_line c rest

abbrev word : Str → Str
word [] = []
word (c ∷ s) = if is_whitespace c then [] else c ∷ word s

-- `line.split_whitespace().next()`.
unfoldable pub first_word : Str → Option Str
first_word [] = none
first_word (c ∷ s) = let rest = first_word s in if is_whitespace c then rest else some (c ∷ word s)

-- `filter_map` of that.
abbrev pub first_words : List Str → List Str
first_words [] = []
first_words (l ∷ ls) = elim (first_word l) [ none ↦ first_words ls | some w ↦ w ∷ first_words ls ]

abbrev trim_start : Str → Str
trim_start [] = []
trim_start (c ∷ s) = let rest = trim_start s in if is_whitespace c then rest else c ∷ s

abbrev cons_unless_blank : ℕ → Str → Str
cons_unless_blank c [] = if is_whitespace c then [] else c ∷ []
cons_unless_blank c (d ∷ s) = c ∷ d ∷ s

abbrev trim_end : Str → Str
trim_end [] = []
trim_end (c ∷ s) = cons_unless_blank c (trim_end s)

abbrev pub trim : Str → Str
trim s = trim_end (trim_start s)

-- `str::parse` at `u32`: digits, perhaps behind a plus sign, without overflow.
abbrev parse_digits : ℕ → Str → Option ℕ
parse_digits n [] = some n
parse_digits n (c ∷ s) =
    let m = n * 10 + (c - b'0') in
    let more = parse_digits m s in if leb b'0' c && leb c b'9' && ltb m (2 ^ 32) then more else none

unfoldable pub parse_u32 : Str → Option ℕ
parse_u32 [] = none
parse_u32 (c ∷ []) = parse_digits 0 (c ∷ [])
parse_u32 (c ∷ d ∷ s) =
    if nat_beq c b'+' then parse_digits 0 (d ∷ s) else parse_digits 0 (c ∷ d ∷ s)

pub record DesktopSession : Type 0 where
  pub user : Str
  pub uid : ℕ

-- How `loginctl show-session` ends for an id: it cannot be run, fails, or prints.
pub data Shown : Type 0 where
  not_run failed : Shown
  printed : Str → Shown

-- `line.strip_prefix(key)?.strip_prefix('=')`.
abbrev value_in : Str → Str → Option Str
value_in key line = elim (strip_prefix key line) [
  | none ↦ none
  | some rest ↦ strip_prefix (b'=' ∷ []) rest
]

abbrev find_value : Str → List Str → Option Str
find_value key [] = none
find_value key (l ∷ ls) = elim (value_in key l) [ none ↦ find_value key ls | some v ↦ some v ]

-- The closure `get`.
unfoldable pub get : Str → Str → Option Str
unfolding lines strip_prefix
get properties key = find_value key (lines properties)

abbrev pub is_graphical : Option Str → Bool
is_graphical none = false
is_graphical (some type) = type == codes "x11" || type == codes "wayland" || type == codes "mir"

abbrev pub is_active_graphical : Str → Bool
is_active_graphical properties =
    get properties (codes "Active") == some (codes "yes")
    && is_graphical (get properties (codes "Type"))

abbrev parsed : Option Str → Option ℕ
parsed none = none
parsed (some uid) = parse_u32 uid

abbrev named : Option Str → Option ℕ → Option DesktopSession
named (some user) (some uid) = some (record { user = user; uid = uid })
named _ _ = none

abbrev pub session_of : Str → Option DesktopSession
session_of properties =
    named (get properties (codes "Name")) (parsed (get properties (codes "User")))

-- The loop over the ids.
unfoldable pub find_session : (Str → Shown) → List Str → Option DesktopSession
unfolding get parse_u32
find_session show [] = none
find_session show (id ∷ ids) =
    let rest = find_session show ids in
    elim (show id) [
      | not_run ↦ none
      | failed ↦ rest
      | printed properties ↦ if is_active_graphical properties then session_of properties else rest
    ]

-- `listed` is what `loginctl list-sessions` prints, if it is run and succeeds.
unfoldable pub active_desktop_session : Option Str → (Str → Shown) → Option DesktopSession
unfolding find_session first_word lines
active_desktop_session none show = none
active_desktop_session (some listed) show = find_session show (first_words (lines listed))
