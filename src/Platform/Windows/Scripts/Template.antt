-- ===== src/Platform/Windows/Scripts/Template.antt =====
-- A script as fixed texts and marked places.
use taymna.Common.{
  ℕ, ◌≤◌, ◌≡◌, Bool, true, false, List, [], ◌∷◌, ◌++◌, All, nat_beq, ◌&&◌, if◌then◌else◌, not, ◌||◌,
}
use taymna.Common.Text.{Str}

pub data Part : Type 0 where
  fixed : Str → Part
  slot : (name : Str) → Part

abbrev pub mark : Str → Str
mark name = b'%' ∷ b'%' ∷ (name ++ b'%' ∷ b'%' ∷ [])

abbrev pub render : List Part → Str
render [] = []
render (fixed p ∷ t) = p ++ render t
render (slot name ∷ t) = mark name ++ render t

abbrev pub str_beq : Str → Str → Bool
str_beq [] [] = true
str_beq [] (y ∷ ys) = false
str_beq (x ∷ xs) [] = false
str_beq (x ∷ xs) (y ∷ ys) = nat_beq x y && str_beq xs ys

abbrev pub fill_part : Str → Str → Part → Part
fill_part name value (fixed p) = fixed p
fill_part name value (slot m) = if str_beq m name then fixed value else slot m

abbrev pub fill : Str → Str → List Part → List Part
fill name value [] = []
fill name value (p ∷ t) = fill_part name value p ∷ fill name value t

-- No two percent signs in a row, and none at the end.
abbrev pub is_quiet : Str → Bool
is_quiet [] = true
is_quiet (c ∷ []) = not (nat_beq c b'%')
is_quiet (c ∷ d ∷ s) = (not (nat_beq c b'%') || not (nat_beq d b'%')) && is_quiet (d ∷ s)

abbrev pub IsUpper : ℕ → Type 0
IsUpper c = (65 ≤ c) × (c ≤ 90)

abbrev pub IsName : Str → Type 0
IsName [] = ⊥
IsName (c ∷ s) = IsUpper c × All IsUpper s

-- What follows a slot is a fixed text that does not go on like a mark.
abbrev pub IsBroken : List Part → Type 0
IsBroken (fixed (c ∷ p) ∷ t) = c ≤ 32
IsBroken _ = ⊥

abbrev pub IsSoundPart : Part → List Part → Type 0
IsSoundPart (fixed p) t = is_quiet p ≡ true
IsSoundPart (slot name) t = IsName name × IsBroken t

abbrev pub IsSound : List Part → Type 0
IsSound [] = Unit {0}
IsSound (p ∷ t) = IsSoundPart p t × IsSound t
