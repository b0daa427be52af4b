-- ===== src/Server/Credentials.antt =====
-- api/src/modules/machines/machines.service.ts, `splitCredential` and `sanitizeAgentVersion`: what the
-- server makes of the text that an agent sends.
use taymna.Common.{
  ℕ, ◌≡◌, ◌≢◌, refl, Bool, true, false, ◌&&◌, ◌||◌, Option, none, some, [], ◌∷◌, ◌++◌, arith, ltb,
  leb, nat_beq, length, if◌then◌else◌, All,
}
use taymna.Common.Equality.{nat_eq, list_eq}
use taymna.Common.Text.{Str, codes, strip_prefix}
use taymna.Storage.{Credentials}
use taymna.Client.{auth_value}

-- The text in front of the first full stop and the one behind it.
abbrev cut_at : Str → Option (Str × Str)
cut_at [] = none
cut_at (c ∷ s) =
    let rest = cut_at s in
    if nat_beq c b'.'
    then some ([], s)
    else elim rest [ none ↦ none | some (front, behind) ↦ some (c ∷ front, behind) ]

abbrev filled : Option (Str × Str) → Option (Str × Str)
filled none = none
filled (some ([], _)) = none
filled (some (_, [])) = none
filled (some (front, behind)) = some (front, behind)

unfoldable pub split_credential : Str → Option (Str × Str)
split_credential value = filled (cut_at value)

-- No full stop.
abbrev pub IsPlain : Str → Type 0
IsPlain = All λ c. c ≢ b'.'

cut_at_stop : (id secret : Str) → IsPlain id → cut_at (id ++ b'.' ∷ secret) ≡ some (id, secret)
cut_at_stop [] secret h = refl
cut_at_stop (c ∷ id) secret (n, h) = ground (arith, cut_at_stop id secret h)

split_credential_stop :
    (id secret : Str)
    → IsPlain id
    → id ≢ []
    → secret ≢ []
    → split_credential (id ++ b'.' ∷ secret) ≡ some (id, secret)
unfolding split_credential
split_credential_stop [] secret h n k = absurd (n refl)
split_credential_stop (c ∷ id) [] h n k = absurd (k refl)
split_credential_stop (c ∷ id) (d ∷ secret) h n k = rw (cut_at_stop (c ∷ id) (d ∷ secret) h)

-- What `handleConnection` reads of the header of an agent.
unfoldable pub credential_of : Str → Option (Str × Str)
unfolding strip_prefix split_credential
credential_of header = elim (strip_prefix (codes "Machine ") header) [
  | none ↦ none
  | some credential ↦ split_credential credential
]

-- The server reads from the header of an agent the machine id and the secret that the agent was
-- enrolled with, if the id has no full stop and neither is empty, whatever else they hold.
pub credential_of-auth_value :
    (c : Credentials)
    → IsPlain c.machine_id
    → c.machine_id ≢ []
    → c.machine_secret ≢ []
    → credential_of (auth_value c) ≡ some (c.machine_id, c.machine_secret)
unfolding credential_of auth_value strip_prefix
credential_of-auth_value c h n k = split_credential_stop c.machine_id c.machine_secret h n k

abbrev is_between : ℕ → ℕ → ℕ → Bool
is_between low high c = leb low c && leb c high

abbrev is_alphanumeric : ℕ → Bool
is_alphanumeric c = is_between b'A' b'Z' c || is_between b'a' b'z' c || is_between b'0' b'9' c

abbrev is_version_char : ℕ → Bool
is_version_char c =
    is_alphanumeric c || nat_beq c b'.' || nat_beq c b'+' || nat_beq c b'_' || nat_beq c b'-'

abbrev all_version_chars : Str → Bool
all_version_chars [] = true
all_version_chars (c ∷ s) = is_version_char c && all_version_chars s

-- The regular expression.
abbrev looks_like_version : Str → Bool
looks_like_version [] = false
looks_like_version (c ∷ s) = is_alphanumeric c && all_version_chars s

abbrev max_agent_version_length : ℕ
max_agent_version_length = 32

-- `none` is a value that is no string. A text that the expression accepts is ASCII, so that its
-- length is the number of its characters.
unfoldable pub sanitize_agent_version : (Str → Str) → Option Str → Option Str
sanitize_agent_version trim none = none
sanitize_agent_version trim (some value) =
    let trimmed = trim value in
    if ltb max_agent_version_length (length trimmed)
    then none
    else if looks_like_version trimmed
    then some trimmed
    else none
