-- ===== src/Platform/Utf16.antt =====
-- agent/src/platform/windows.rs, `utf16le` and `run_powershell`: how a script is handed over.
use taymna.Common.{
  ℕ, ◌+◌, ◌-◌, ◌*◌, ◌/◌, ◌%◌, ◌≤◌, ◌<◌, ◌⊎◌, Option, none, some, List, [], ◌∷◌, ◌++◌, if◌then◌else◌,
  ltb, leb, Bool, ◌&&◌,
}
use taymna.Common.Text.{Str, codes}
use taymna.Platform.Base64
use taymna.Platform.Base64.{base64}

-- `str::encode_utf16` of one scalar value: itself, or two surrogates.
abbrev units : ℕ → List ℕ
units c =
    if ltb c 65536 then c ∷ [] else (55296 + (c - 65536) / 1024) ∷ (56320 + (c - 65536) % 1024) ∷ []

unfoldable pub encode_utf16 : Str → List ℕ
encode_utf16 [] = []
encode_utf16 (c ∷ s) = units c ++ encode_utf16 s

-- `u16::to_le_bytes` of every unit.
unfoldable pub to_le_bytes : List ℕ → List ℕ
to_le_bytes [] = []
to_le_bytes (u ∷ us) = u % 256 ∷ u / 256 ∷ to_le_bytes us

unfoldable pub utf16le : Str → List ℕ
unfolding encode_utf16 to_le_bytes
utf16le value = to_le_bytes (encode_utf16 value)

abbrev powershell : Str
powershell = codes "C:\\Windows\\System32\\WindowsPowerShell\\v1.0\\powershell.exe"

abbrev pub powershell_options : Str
powershell_options =
    powershell ++ codes " -NoProfile -NonInteractive -WindowStyle Hidden -EncodedCommand "

-- The command line of `run_powershell`.
unfoldable pub powershell_command_line : Str → Str
unfolding utf16le base64
powershell_command_line script = powershell_options ++ base64 (utf16le script)

-- How bytes are read as UTF-16LE: pairs of bytes are units, pairs of surrogates are one value.
read_units : List ℕ → Option (List ℕ)
read_units [] = some []
read_units (low ∷ []) = none
read_units (low ∷ high ∷ bytes) = elim (read_units bytes) [
  | none ↦ none
  | some us ↦ some ((low + 256 * high) ∷ us)
]

abbrev is_lead : ℕ → Bool
is_lead u = leb 55296 u && ltb u 56320

abbrev cons_value : ℕ → Option Str → Option Str
cons_value c none = none
cons_value c (some s) = some (c ∷ s)

-- Behind a lead surrogate, or not.
read_values : Option ℕ → List ℕ → Option Str
read_values none [] = some []
read_values (some lead) [] = none
read_values none (u ∷ us) =
    let paired = read_values (some u) us in
    let more = read_values none us in if is_lead u then paired else cons_value u more
read_values (some lead) (u ∷ us) =
    let more = read_values none us in cons_value (65536 + (lead - 55296) * 1024 + (u - 56320)) more

unfoldable pub read_utf16le : List ℕ → Option Str
unfolding read_units read_values
read_utf16le bytes = elim (read_units bytes) [ none ↦ none | some us ↦ read_values none us ]

-- A Unicode scalar value, which is what a `char` is.
abbrev pub IsScalar : ℕ → Type 0
IsScalar c = (c < 55296) ⊎ ((57344 ≤ c) × (c < 1114112))

abbrev IsUnit : ℕ → Type 0
IsUnit u = u < 65536

-- What `-EncodedCommand` does with its argument.
unfoldable pub read_command : Str → Option Str
read_command argument = elim (Base64.decode argument) [
  | none ↦ none
  | some bytes ↦ read_utf16le bytes
]
