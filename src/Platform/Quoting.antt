-- ===== src/Platform/Quoting.antt =====
-- agent/src/platform/windows.rs, `powershell_string`, and agent/src/platform/macos.rs,
-- `applescript_string`: a text as a string literal.
use taymna.Common.{
  ℕ, ◌≡◌, refl, sym, Bool, true, false, Option, none, some, [], ◌∷◌, ◌++◌, arith, if◌then◌else◌,
  nat_beq, nat_beq_iff, Bool-cases, inl, inr, ◌&&◌, ◌||◌, leb, All, ◌+◌, ◌≤◌, length, ◌↔◌,
}
use mathlib.Core.List.{append_assoc}
use taymna.Common.Text.{Str, codes}

-- `str::replace` of one character.
unfoldable pub replace : ℕ → Str → Str → Str
replace c by [] = []
replace c by (x ∷ s) = (if nat_beq x c then by else x ∷ []) ++ replace c by s

unfoldable pub powershell_string : Str → Str
unfolding replace
powershell_string value = b'\'' ∷ (replace b'\'' (codes "''") value ++ codes "'")

unfoldable pub applescript_string : Str → Str
unfolding replace
applescript_string value =
    codes "\""
    ++ (replace 10 (codes "\\n") (replace b'"' (codes "\\\"") (replace b'\\' (codes "\\\\") value))
        ++ codes "\"")

abbrev with_char : ℕ → Option (Str × Str) → Option (Str × Str)
with_char c none = none
with_char c (some (value, rest)) = some (c ∷ value, rest)

-- The quotes that are not `'` and that PowerShell takes for it, U+2018 to U+201B.
abbrev pub is_curly : ℕ → Bool
is_curly c = leb 8216 c && leb c 8219

-- What PowerShell takes for a single quote (about_Quoting_Rules).
abbrev pub is_quote : ℕ → Bool
is_quote c = nat_beq c b'\'' || is_curly c

-- How PowerShell reads a single-quoted literal behind its opening quote, or behind one more quote
-- that may end it: of two quotes, whichever they are, the second one is meant. The result is the
-- value and what follows the literal.
scan_powershell : (quote_seen : Bool) → Str → Option (Str × Str)
scan_powershell false [] = none
scan_powershell true [] = some ([], [])
scan_powershell false (c ∷ s) =
    let ended = scan_powershell true s in
    let more = scan_powershell false s in if is_quote c then ended else with_char c more
scan_powershell true (c ∷ s) =
    let more = scan_powershell false s in if is_quote c then with_char c more else some ([], c ∷ s)

unfoldable pub read_powershell : Str → Option (Str × Str)
unfolding scan_powershell
read_powershell [] = none
read_powershell (c ∷ s) = if is_quote c then scan_powershell false s else none

-- What comes next does not begin with a quote.
abbrev pub IsFree : Str → Type 0
IsFree [] = Unit {0}
IsFree (c ∷ s) = is_quote c ≡ false

abbrev pub IsPlain : Str → Type 0
IsPlain = All λ c. is_curly c ≡ false

scan_powershell-replace :
    (value rest : Str)
    → IsPlain value
    → IsFree rest
    → scan_powershell false (replace b'\'' (codes "''") value ++ b'\'' ∷ rest) ≡ some (value, rest)
unfolding scan_powershell replace
scan_powershell-replace [] [] p h = refl
scan_powershell-replace [] (c ∷ rest) p h = ground arith
scan_powershell-replace (x ∷ value) rest (q, p) h = elim (Bool-cases (nat_beq x b'\'')) [
  | inl e ↦ rw e (ground (arith, scan_powershell-replace value rest p h))
  | inr e ↦ rw e (ground (arith, scan_powershell-replace value rest p h))
]

-- How many characters of a text are quotes of PowerShell, and how many are `'`.
quotes : Str → ℕ
quotes [] = 0
quotes (c ∷ s) = (if is_quote c then 1 else 0) + quotes s

apostrophes : Str → ℕ
apostrophes [] = 0
apostrophes (c ∷ s) = (if nat_beq c b'\'' then 1 else 0) + apostrophes s

-- What reading `n` characters may give: each that is meant stands for itself, and each quote of them
-- for one more; the end is one character.
Accounts : ℕ → Option (Str × Str) → Type 0
unfolding quotes
Accounts n none = Unit {0}
Accounts n (some (value, rest)) = n ≡ length value + quotes value + 1 + length rest

recount : {m n : ℕ} (o : Option (Str × Str)) → m ≡ n → Accounts m o → Accounts n o
recount o e h = rw (sym e) h

with_char-Accounts :
    (n c : ℕ) (o : Option (Str × Str))
    → Accounts n o
    → Accounts (n + 1 + (if is_quote c then 1 else 0)) (with_char c o)
unfolding Accounts quotes
with_char-Accounts n c none h = tt
with_char-Accounts n c (some (value, rest)) h = omega (arith, h)

scan_powershell-Accounts :
    (b : Bool) (s : Str) → Accounts (length s + (if b then 1 else 0)) (scan_powershell b s)
unfolding scan_powershell Accounts quotes
scan_powershell-Accounts false [] = tt
scan_powershell-Accounts true [] = refl
scan_powershell-Accounts false (c ∷ s) =
    let ended = scan_powershell-Accounts true s in
    let more = with_char-Accounts _ c _ (scan_powershell-Accounts false s) in
    elim (Bool-cases (is_quote c)) [
      | inl e ↦ rw e (recount _ (omega arith) ended)
      | inr e ↦ rw e (recount _ (omega arith) (rw e at more))
    ]
scan_powershell-Accounts true (c ∷ s) =
    let more = with_char-Accounts _ c _ (scan_powershell-Accounts false s) in
    elim (Bool-cases (is_quote c)) [
      | inl e ↦ rw e (recount _ (omega arith) (rw e at more))
      | inr e ↦ rw e (omega arith)
    ]

replace-length :
    (value rest : Str)
    → length (replace b'\'' (codes "''") value ++ rest)
      ≡ length value + apostrophes value + length rest
unfolding replace apostrophes
replace-length [] rest = omega arith
replace-length (c ∷ value) rest = elim (Bool-cases (nat_beq c b'\'')) [
  | inl e ↦ rw e (omega (arith, replace-length value rest))
  | inr e ↦ rw e (omega (arith, replace-length value rest))
]

apostrophes-le : (value : Str) → apostrophes value ≤ quotes value
unfolding apostrophes quotes
apostrophes-le [] = omega arith
apostrophes-le (c ∷ value) = ground (arith, apostrophes-le value)

quotes-IsPlain : (value : Str) → quotes value ≡ apostrophes value → IsPlain value
unfolding apostrophes quotes
quotes-IsPlain [] e = tt
quotes-IsPlain (c ∷ value) e =
    let le = apostrophes-le value in (ground arith, quotes-IsPlain value (ground arith))

reads-IsPlain :
    (value rest : Str)
    → scan_powershell false (replace b'\'' (codes "''") value ++ b'\'' ∷ rest) ≡ some (value, rest)
    → IsPlain value
unfolding Accounts
reads-IsPlain value rest e =
    let literal = replace b'\'' (codes "''") value ++ b'\'' ∷ rest in
    let counted = scan_powershell-Accounts false literal in
    let accounted = rw e at counted in
    quotes-IsPlain value (omega (arith, accounted, replace-length value (b'\'' ∷ rest)))

-- By PowerShell's rule that U+2018 to U+201B are single quotes like the apostrophe, that of two
-- quotes in a single-quoted literal the second one is meant and that any other quote is its end, a
-- quoted text reads back as it was, with what stood behind the literal, exactly if it holds none
-- of those four characters, where what stands behind does not begin with a quote.
pub read_powershell-powershell_string :
    (value rest : Str)
    → IsFree rest
    → (read_powershell (powershell_string value ++ rest) ≡ some (value, rest)) ↔ IsPlain value
unfolding read_powershell powershell_string
read_powershell-powershell_string value rest h =
    rw (append_assoc (replace b'\'' (codes "''") value) (b'\'' ∷ []) rest)
      (reads-IsPlain value rest, λ p. scan_powershell-replace value rest p h)

-- What a character means behind a backslash in an AppleScript literal.
abbrev unescape : ℕ → Option ℕ
unescape c =
    if nat_beq c b'n'
    then some 10
    else if nat_beq c b'r'
    then some 13
    else if nat_beq c b't'
    then some 9
    else if nat_beq c b'"'
    then some b'"'
    else if nat_beq c b'\\'
    then some b'\\'
    else none

abbrev with_escape : Option ℕ → Option (Str × Str) → Option (Str × Str)
with_escape none more = none
with_escape (some c) more = with_char c more

-- How AppleScript reads a literal behind its opening quote, or behind a backslash in it.
scan_applescript : (backslash_seen : Bool) → Str → Option (Str × Str)
scan_applescript _ [] = none
scan_applescript false (c ∷ s) =
    let escaped = scan_applescript true s in
    let more = scan_applescript false s in
    if nat_beq c b'"' then some ([], s) else if nat_beq c b'\\' then escaped else with_char c more
scan_applescript true (c ∷ s) = let more = scan_applescript false s in with_escape (unescape c) more

unfoldable pub read_applescript : Str → Option (Str × Str)
unfolding scan_applescript
read_applescript [] = none
read_applescript (c ∷ s) = if nat_beq c b'"' then scan_applescript false s else none

-- The three replacements of `applescript_string`.
escape : Str → Str
unfolding replace
escape value =
    replace 10 (codes "\\n") (replace b'"' (codes "\\\"") (replace b'\\' (codes "\\\\") value))

scan_applescript-escape :
    (value rest : Str) → scan_applescript false (escape value ++ b'"' ∷ rest) ≡ some (value, rest)
unfolding scan_applescript escape
scan_applescript-escape [] rest = refl
scan_applescript-escape (x ∷ value) rest =
    let ih = scan_applescript-escape value rest in
    elim (Bool-cases (nat_beq x b'\\')) [
      | inl e ↦ rw ((nat_beq_iff x b'\\').0 e) (ground (arith, ih))
      | inr e ↦ elim (Bool-cases (nat_beq x b'"')) [
        | inl f ↦ rw ((nat_beq_iff x b'"').0 f) (ground (arith, ih))
        | inr f ↦ elim (Bool-cases (nat_beq x 10)) [
          | inl g ↦ rw ((nat_beq_iff x 10).0 g) (ground (arith, ih))
          | inr g ↦ rw (e, f, g) (ground (arith, ih))
        ]
      ]
    ]

-- By the rule that a backslash escapes the character behind it and a bare double quote is the end,
-- a quoted text reads back as it was, whatever it holds, and what follows it is what stood behind
-- the literal.
pub read_applescript-applescript_string :
    (value rest : Str) → read_applescript (applescript_string value ++ rest) ≡ some (value, rest)
unfolding read_applescript applescript_string escape
read_applescript-applescript_string value rest =
    rw (append_assoc (escape value) (b'"' ∷ []) rest) (scan_applescript-escape value rest)
