-- ===== src/Platform/Windows/Scripts/Filling.antt =====
-- `str::replace` of a mark in a script.
use taymna.Common.{
  ℕ, ◌≤◌, ◌≡◌, refl, sym, true, false, List, [], ◌∷◌, ◌++◌, arith, ap, Bool-cases, inl, inr, ◌∙◌,
}
use taymna.Common.Text.{Str}
use taymna.Platform.Windows.Scripts.{replace_from, replace_text}
use taymna.Platform.Windows.Scripts.Template.{
  Part, fixed, slot, mark, render, str_beq, fill_part, fill, is_quiet, IsName, IsBroken,
  IsSoundPart, IsSound,
}
use taymna.Platform.Windows.Scripts.Marks.{replace-quiet, replace-match, replace-other, mark-append}

str_beq-eq : (m n : Str) → str_beq m n ≡ true → m ≡ n
str_beq-eq [] [] h = refl
str_beq-eq [] (d ∷ n) h = absurd (ground arith)
str_beq-eq (c ∷ m) [] h = absurd (ground arith)
str_beq-eq (c ∷ m) (d ∷ n) h = ground (arith, str_beq-eq m n)

slot-filled :
    (name value m s rest : Str)
    → str_beq m name ≡ true
    → replace_from 0 (mark name) value s ≡ rest
    → replace_from 0 (mark name) value (mark m ++ s) ≡ value ++ rest
slot-filled name value m s rest e h =
    ap (λ n. replace_from 0 (mark name) value (mark n ++ s)) (str_beq-eq m name e)
    ∙ replace-match b'%' (b'%' ∷ (name ++ b'%' ∷ b'%' ∷ [])) value s
    ∙ ap (λ r. value ++ r) h

slot-kept :
    (name value m : Str) (c : ℕ) (s rest : Str)
    → IsName name
    → IsName m
    → str_beq m name ≡ false
    → c ≤ 32
    → replace_from 0 (mark name) value (c ∷ s) ≡ rest
    → replace_from 0 (mark name) value (mark m ++ c ∷ s) ≡ mark m ++ rest
slot-kept name value m c s rest h k e b p =
    ap (λ r. replace_from 0 (mark name) value r) (mark-append m (c ∷ s))
    ∙ replace-other name m value c s h k e b
    ∙ sym (mark-append m (replace_from 0 (mark name) value (c ∷ s)))
    ∙ ap (λ r. mark m ++ r) p

replace_from-render :
    (name value : Str) (t : List Part)
    → IsName name
    → IsSound t
    → replace_from 0 (mark name) value (render t) ≡ render (fill name value t)
replace_from-render name value [] h s = unfold replace_from in refl
replace_from-render name value (fixed p ∷ t) h (q, s) =
    replace-quiet (name ++ b'%' ∷ b'%' ∷ []) value p (render t) q
    ∙ ap (λ r. p ++ r) (replace_from-render name value t h s)
replace_from-render name value (slot m ∷ fixed (c ∷ p) ∷ t) h ((k, b), s) =
    let rest = replace_from-render name value (fixed (c ∷ p) ∷ t) h s in
    let after = render (fill name value (fixed (c ∷ p) ∷ t)) in
    elim (Bool-cases (str_beq m name)) [
      | inl e ↦ rw e (slot-filled name value m (c ∷ (p ++ render t)) after e rest)
      | inr e ↦ rw e (slot-kept name value m c (p ++ render t) after h k e b rest)
    ]
replace_from-render name value (slot m ∷ []) h ((k, b), s) = absurd b
replace_from-render name value (slot m ∷ slot n ∷ t) h ((k, b), s) = absurd b
replace_from-render name value (slot m ∷ fixed [] ∷ t) h ((k, b), s) = absurd b

-- In a sound script, replacing the mark of a name fills the places of that name, and nothing else.
pub replace_text-render :
    (name value : Str) (t : List Part)
    → IsName name
    → IsSound t
    → replace_text (mark name) value (render t) ≡ render (fill name value t)
unfolding replace_text
replace_text-render name value t h s = replace_from-render name value t h s

fill_part-IsSoundPart :
    (name value : Str) (p : Part) (t u : List Part)
    → is_quiet value ≡ true
    → (IsBroken t → IsBroken u)
    → IsSoundPart p t
    → IsSoundPart (fill_part name value p) u
fill_part-IsSoundPart name value (fixed p) t u q f h = h
fill_part-IsSoundPart name value (slot m) t u q f (k, b) = elim (Bool-cases (str_beq m name)) [
  | inl e ↦ rw e q
  | inr e ↦ rw e (k, f b)
]

fill-IsBroken : (name value : Str) (t : List Part) → IsBroken t → IsBroken (fill name value t)
fill-IsBroken name value [] b = absurd b
fill-IsBroken name value (slot m ∷ t) b = absurd b
fill-IsBroken name value (fixed [] ∷ t) b = absurd b
fill-IsBroken name value (fixed (c ∷ p) ∷ t) b = b

-- Filling in a text without two percent signs in a row, or one at its end, keeps a script sound.
pub fill-IsSound :
    (name value : Str) (t : List Part)
    → is_quiet value ≡ true
    → IsSound t
    → IsSound (fill name value t)
fill-IsSound name value [] q s = tt
fill-IsSound name value (p ∷ t) q (h, s) = (
  fill_part-IsSoundPart name value p t (fill name value t) q (fill-IsBroken name value t) h,
  fill-IsSound name value t q s,
)
