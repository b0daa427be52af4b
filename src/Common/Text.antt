-- ===== src/Common/Text.antt =====
-- `String` and `&str` as the list of their Unicode scalar values.
use Prim.Native.Nat.{ℕ, zero, suc, ◌+◌, ◌/◌, ◌%◌, ◌<◌}
use Prim.Native.Char.{code}
use Prim.Native.String.{String}
use mathlib.Core.Path.{◌≡◌, ap}
use mathlib.Core.Option.{Option, none, some}
use mathlib.Core.List.{List, [], ◌∷◌, ◌++◌}
use native.Mathlib.Omega.{arith}
use taymna.Common.Tests.{ltb, nat_beq, if◌then◌else◌}
use taymna.Common.Int.{ℤ, pos, negsuc}

abbrev pub Str : Type 0
Str = List ℕ

-- A literal of the source.
abbrev pub codes : String → Str
codes String.[] = []
codes (String.◌∷◌ c s) = code c ∷ codes s

-- The decimal digits of a number. Each round divides by ten, so the number itself is fuel enough.
unfoldable pub digits : ℕ → ℕ → Str
digits zero n = []
digits (suc fuel) n =
    let more = digits fuel (n / 10) in
    if ltb n 10 then (b'0' + n) ∷ [] else more ++ (b'0' + n % 10) ∷ []

-- `Display` of an integer.
unfoldable pub to_string : ℤ → Str
unfolding digits
to_string (pos n) = digits (suc n) n
to_string (negsuc n) = b'-' ∷ digits (suc (suc n)) (suc n)

-- Any fuel above the number gives the same digits.
pub digits_fuel : (f g n : ℕ) → n < f → n < g → digits f n ≡ digits g n
unfolding digits
digits_fuel zero g n h k = absurd (omega arith)
digits_fuel (suc f) zero n h k = absurd (omega arith)
digits_fuel (suc f) (suc g) n h k = ground (arith, digits_fuel f g (n / 10))

abbrev cons_trimmed : ℕ → ℕ → Str → Str
cons_trimmed c x [] = if nat_beq x c then [] else x ∷ []
cons_trimmed c x (y ∷ s) = x ∷ y ∷ s

-- `str::trim_end_matches` of one character.
unfoldable pub trim_end_matches : ℕ → Str → Str
trim_end_matches c [] = []
trim_end_matches c (x ∷ s) = cons_trimmed c x (trim_end_matches c s)

pub trim_end_matches-concat :
    (c : ℕ) (s : Str) → trim_end_matches c (s ++ c ∷ []) ≡ trim_end_matches c s
unfolding trim_end_matches
trim_end_matches-concat c [] = ground arith
trim_end_matches-concat c (x ∷ s) = ap (cons_trimmed c x) (trim_end_matches-concat c s)

-- `str::strip_prefix`.
unfoldable pub strip_prefix : Str → Str → Option Str
strip_prefix [] s = some s
strip_prefix (c ∷ prefix) [] = none
strip_prefix (c ∷ prefix) (x ∷ s) =
    let rest = strip_prefix prefix s in if nat_beq x c then rest else none

pub strip_prefix-eq-some :
    (prefix s rest : Str) → strip_prefix prefix s ≡ some rest → s ≡ prefix ++ rest
unfolding strip_prefix
strip_prefix-eq-some [] s rest h = ground arith
strip_prefix-eq-some (c ∷ prefix) [] rest h = ground arith
strip_prefix-eq-some (c ∷ prefix) (x ∷ s) rest h =
    ground (arith, strip_prefix-eq-some prefix s rest)
