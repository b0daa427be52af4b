-- ===== src/Platform/Base64.antt =====
-- agent/src/platform/windows.rs, `base64`. Bytes are numbers below 256; on these the shifts and the
-- `|` of the code are the sums and products here.
use taymna.Common.{
  ℕ, zero, suc, ◌+◌, ◌-◌, ◌*◌, ◌/◌, ◌%◌, ◌^◌, ◌<◌, ◌≡◌, refl, Bool, true, false, not, ◌&&◌, Option,
  none, some, List, [], ◌∷◌, arith, All, if◌then◌else◌, leb, nat_beq, nat_beq_iff, Bool-cases, inl,
  inr,
}
use taymna.Common.Text.{Str, codes}

abbrev alphabet : Str
alphabet = codes "ABCDEFGHIJKLMNOPQRSTUVWXYZabcdefghijklmnopqrstuvwxyz0123456789+/"

-- The character at an index; every index here is below 64.
abbrev at : Str → ℕ → ℕ
at [] i = 0
at (c ∷ cs) zero = c
at (c ∷ cs) (suc i) = at cs i

unfoldable pub letter : ℕ → ℕ
letter i = at alphabet i

-- `ALPHABET[(block >> shift) as usize & 0x3f]`.
abbrev pub sextet : ℕ → ℕ → ℕ
sextet block shift = letter (block / 2 ^ shift % 64)

abbrev block_of : ℕ → ℕ → ℕ → ℕ
block_of a b c = a * 65536 + (b * 256 + c)

unfoldable pub base64 : List ℕ → Str
base64 [] = []
base64 (a ∷ []) = let block = block_of a 0 0 in sextet block 18 ∷ sextet block 12 ∷ b'=' ∷ b'=' ∷ []
base64 (a ∷ b ∷ []) =
    let block = block_of a b 0 in sextet block 18 ∷ sextet block 12 ∷ sextet block 6 ∷ b'=' ∷ []
base64 (a ∷ b ∷ c ∷ bytes) =
    let block = block_of a b c in
    sextet block 18 ∷ sextet block 12 ∷ sextet block 6 ∷ sextet block 0 ∷ base64 bytes

abbrev is_in_range : ℕ → ℕ → ℕ → Bool
is_in_range low high c = leb low c && leb c high

-- The value of a character, by table 1 of RFC 4648.
unfoldable pub value : ℕ → Option ℕ
value c =
    if is_in_range b'A' b'Z' c
    then some (c - b'A')
    else if is_in_range b'a' b'z' c
    then some (c - b'a' + 26)
    else if is_in_range b'0' b'9' c
    then some (c - b'0' + 52)
    else if nat_beq c b'+'
    then some 62
    else if nat_beq c b'/'
    then some 63
    else none

below : (ℕ → Bool) → ℕ → Bool
below p zero = true
below p (suc n) = p n && below p n

below_lem : (p : ℕ → Bool) (n k : ℕ) → below p n ≡ true → k < n → p k ≡ true
unfolding below
below_lem p zero k h l = absurd (omega arith)
below_lem p (suc n) k h l = elim (Bool-cases (nat_beq k n)) [
  | inl e ↦ rw ((nat_beq_iff k n).0 e) (ground arith)
  | inr e ↦ below_lem p n k (ground arith) (ground arith)
]

abbrev option_is : ℕ → Option ℕ → Bool
option_is n none = false
option_is n (some m) = nat_beq m n

letters : below (λ n. option_is n (value (letter n)) && not (nat_beq (letter n) b'=')) 64 ≡ true
unfolding below value letter
letters = refl

-- A letter has the value that it stands for, and none is the padding character.
letter_lem : (n : ℕ) → n < 64 → (value (letter n) ≡ some n) × (nat_beq (letter n) b'=' ≡ false)
letter_lem n l =
    let h =
      below_lem (λ n. option_is n (value (letter n)) && not (nat_beq (letter n) b'=')) 64 n letters
        l in
    ground (arith, h)

-- What the standard says of reading base64 (RFC 4648, section 4): four characters are three bytes, and one or two
-- characters of padding at the end stand for as many bytes fewer.
abbrev block_of_values : Option ℕ → Option ℕ → Option ℕ → Option ℕ → Option ℕ
block_of_values (some p) (some q) (some r) (some s) = some (p * 262144 + (q * 4096 + (r * 64 + s)))
block_of_values _ _ _ _ = none

abbrev one_byte : Option ℕ → Option (List ℕ)
one_byte none = none
one_byte (some v) = some (v / 65536 ∷ [])

abbrev two_bytes : Option ℕ → Option (List ℕ)
two_bytes none = none
two_bytes (some v) = some (v / 65536 ∷ v / 256 % 256 ∷ [])

abbrev three_bytes : Option ℕ → Option (List ℕ) → Option (List ℕ)
three_bytes (some v) (some bytes) = some (v / 65536 ∷ v / 256 % 256 ∷ v % 256 ∷ bytes)
three_bytes _ _ = none

unfoldable pub decode : Str → Option (List ℕ)
decode [] = some []
decode (p ∷ q ∷ r ∷ s ∷ rest) =
    let more = decode rest in
    if nat_beq r b'='
    then one_byte (block_of_values (value p) (value q) (some 0) (some 0))
    else if nat_beq s b'='
    then two_bytes (block_of_values (value p) (value q) (value r) (some 0))
    else three_bytes (block_of_values (value p) (value q) (value r) (value s)) more
decode _ = none

abbrev pub IsByte : ℕ → Type 0
IsByte b = b < 256

-- Reading what `base64` wrote gives the bytes back.
pub decode-base64 : (bytes : List ℕ) → All IsByte bytes → decode (base64 bytes) ≡ some bytes
unfolding decode base64
decode-base64 [] h = refl
decode-base64 (a ∷ []) (p, _) =
    let block = block_of a 0 0 in
    ground (
      arith,
      letter_lem (block / 2 ^ 18 % 64) (omega arith),
      letter_lem (block / 2 ^ 12 % 64) (omega arith),
    )
decode-base64 (a ∷ b ∷ []) (p, (q, _)) =
    let block = block_of a b 0 in
    ground (
      arith,
      letter_lem (block / 2 ^ 18 % 64) (omega arith),
      letter_lem (block / 2 ^ 12 % 64) (omega arith),
      letter_lem (block / 2 ^ 6 % 64) (omega arith),
    )
decode-base64 (a ∷ b ∷ c ∷ bytes) (p, (q, (r, h))) =
    let block = block_of a b c in
    ground (
      arith,
      letter_lem (block / 2 ^ 18 % 64) (omega arith),
      letter_lem (block / 2 ^ 12 % 64) (omega arith),
      letter_lem (block / 2 ^ 6 % 64) (omega arith),
      letter_lem (block / 2 ^ 0 % 64) (omega arith),
      decode-base64 bytes h,
    )
