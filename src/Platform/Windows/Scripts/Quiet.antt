-- ===== src/Platform/Windows/Scripts/Quiet.antt =====
-- Which texts cannot be taken for a mark.
use taymna.Common.{
  zero, suc, ◌+◌, ◌/◌, ◌%◌, ◌≢◌, All, All-append, ltb, ℕ, ◌≡◌, refl, true, [], ◌∷◌, ◌++◌, arith,
  nat_beq, inl, inr, Bool-cases,
}
use taymna.Common.Int.{ℤ, pos, negsuc}
use taymna.Common.Text.{Str, codes, digits, to_string}
use taymna.Platform.Quoting.{powershell_string, replace}
use taymna.Platform.Windows.Scripts.Template.{is_quiet}

quoted-quiet :
    (v : Str) → is_quiet v ≡ true → is_quiet (replace b'\'' (codes "''") v ++ b'\'' ∷ []) ≡ true
unfolding replace
quoted-quiet [] h = refl
quoted-quiet (c ∷ []) h = elim (Bool-cases (nat_beq c b'\'')) [
  | inl e ↦ rw e refl
  | inr e ↦ rw e (ground arith)
]
quoted-quiet (c ∷ d ∷ v) h =
    let more = quoted-quiet (d ∷ v) in
    elim (Bool-cases (nat_beq c b'\'')) [
      | inl e ↦ elim (Bool-cases (nat_beq d b'\'')) [
        | inl f ↦ rw (e, f) (ground (arith, more))
        | inr f ↦ rw (e, f) (ground (arith, more))
      ]
      | inr e ↦ elim (Bool-cases (nat_beq d b'\'')) [
        | inl f ↦ rw (e, f) (ground (arith, more))
        | inr f ↦ rw (e, f) (ground (arith, more))
      ]
    ]

behind_quote : (s : Str) → is_quiet s ≡ true → is_quiet (b'\'' ∷ s) ≡ true
behind_quote [] h = refl
behind_quote (c ∷ s) h = h

pub powershell_string-quiet : (v : Str) → is_quiet v ≡ true → is_quiet (powershell_string v) ≡ true
unfolding powershell_string
powershell_string-quiet v h =
    behind_quote (replace b'\'' (codes "''") v ++ b'\'' ∷ []) (quoted-quiet v h)

plain-quiet : (s : Str) → All (λ c. c ≢ b'%') s → is_quiet s ≡ true
plain-quiet [] h = refl
plain-quiet (c ∷ []) h = ground arith
plain-quiet (c ∷ d ∷ s) (p, h) = ground (arith, plain-quiet (d ∷ s) h)

digits-plain : (fuel n : ℕ) → All (λ c. c ≢ b'%') (digits fuel n)
unfolding digits
digits-plain zero n = tt
digits-plain (suc fuel) n = elim (Bool-cases (ltb n 10)) [
  | inl e ↦ rw e (λ h. omega arith, tt)
  | inr e ↦ rw e (
      All-append (λ c. c ≢ b'%') (digits fuel (n / 10)) ((b'0' + n % 10) ∷ [])
        (digits-plain fuel (n / 10)) (λ h. omega arith, tt))
]

pub to_string-quiet : (r : ℤ) → is_quiet (to_string r) ≡ true
unfolding to_string
to_string-quiet (pos n) = plain-quiet (digits (suc n) n) (digits-plain (suc n) n)
to_string-quiet (negsuc n) =
    plain-quiet (b'-' ∷ digits (suc (suc n)) (suc n))
      (λ h. omega arith, digits-plain (suc (suc n)) (suc n))
