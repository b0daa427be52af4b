-- ===== src/Platform/Windows/Scripts/Marks.antt =====
-- Where `str::replace` finds a mark, and where not.
use taymna.Common.{ℕ, ◌≤◌, ◌≡◌, refl, true, false, [], ◌∷◌, ◌++◌, All, arith, ap, length, ◌∙◌}
use mathlib.Core.List.{append_assoc}
use taymna.Common.Text.{Str}
use taymna.Platform.Windows.Scripts.{starts_with, replace_from}
use taymna.Platform.Windows.Scripts.Template.{mark, str_beq, is_quiet, IsUpper, IsName}

pub replace-quiet :
    (pattern by p s : Str)
    → is_quiet p ≡ true
    → replace_from 0 (b'%' ∷ b'%' ∷ pattern) by (p ++ s)
      ≡ p ++ replace_from 0 (b'%' ∷ b'%' ∷ pattern) by s
unfolding replace_from starts_with
replace-quiet pattern by [] s h = refl
replace-quiet pattern by (c ∷ []) s h = ground arith
replace-quiet pattern by (c ∷ d ∷ p) s h = ground (arith, replace-quiet pattern by (d ∷ p) s)

starts_with-append : (p s : Str) → starts_with p (p ++ s) ≡ true
unfolding starts_with
starts_with-append [] s = refl
starts_with-append (c ∷ p) s = ground (arith, starts_with-append p s)

replace-skip :
    (pattern by p s : Str)
    → replace_from (length p) pattern by (p ++ s) ≡ replace_from 0 pattern by s
unfolding replace_from
replace-skip pattern by [] s = refl
replace-skip pattern by (c ∷ p) s = replace-skip pattern by p s

pub replace-match :
    (c : ℕ) (pattern by s : Str)
    → replace_from 0 (c ∷ pattern) by (c ∷ (pattern ++ s)) ≡ by ++ replace_from 0 (c ∷ pattern) by s
unfolding replace_from
replace-match c pattern by s =
    ground (arith, starts_with-append (c ∷ pattern) s, replace-skip (c ∷ pattern) by pattern s)

-- A mark is not taken for another one.
starts_with-other :
    (n m s : Str)
    → All IsUpper n
    → All IsUpper m
    → str_beq m n ≡ false
    → starts_with (n ++ b'%' ∷ b'%' ∷ []) (m ++ b'%' ∷ s) ≡ false
unfolding starts_with
starts_with-other [] [] s h k e = ground arith
starts_with-other [] (d ∷ m) s h k e = ground arith
starts_with-other (c ∷ n) [] s h k e = ground arith
starts_with-other (c ∷ n) (d ∷ m) s (p, h) (q, k) e = ground (arith, starts_with-other n m s h k)

upper-quiet : (n : Str) → All IsUpper n → is_quiet n ≡ true
upper-quiet [] h = refl
upper-quiet (c ∷ []) h = ground arith
upper-quiet (c ∷ d ∷ n) (p, h) = ground (arith, upper-quiet (d ∷ n) h)

name-IsUpper : (n : Str) → IsName n → All IsUpper n
name-IsUpper [] h = absurd h
name-IsUpper (c ∷ n) h = h

replace-miss :
    (pattern by : Str) (c : ℕ) (s : Str)
    → starts_with pattern (c ∷ s) ≡ false
    → replace_from 0 pattern by (c ∷ s) ≡ c ∷ replace_from 0 pattern by s
unfolding replace_from
replace-miss pattern by c s h = rw (replace_from, h) refl

starts_with-mark :
    (n m s : Str)
    → IsName n
    → IsName m
    → str_beq m n ≡ false
    → starts_with (mark n) (b'%' ∷ b'%' ∷ (m ++ b'%' ∷ s)) ≡ false
unfolding starts_with
starts_with-mark [] m s h k e = absurd h
starts_with-mark (c ∷ n) [] s h k e = absurd k
starts_with-mark (c ∷ n) (d ∷ m) s h k e = starts_with-other (c ∷ n) (d ∷ m) s h k e

-- Inside another mark, and at its end, nothing is found.
inside_mark :
    (n m : Str) (c : ℕ) (s : Str)
    → IsName n
    → IsName m
    → c ≤ 32
    → (starts_with (mark n) (b'%' ∷ (m ++ b'%' ∷ s)) ≡ false)
      × (starts_with (mark n) (b'%' ∷ b'%' ∷ c ∷ s) ≡ false)
      × (starts_with (mark n) (b'%' ∷ c ∷ s) ≡ false)
unfolding starts_with
inside_mark [] m c s h k b = absurd h
inside_mark (x ∷ n) [] c s h k b = absurd k
inside_mark (x ∷ n) (y ∷ m) c s h k b = ground arith

pub replace-other :
    (n m by : Str) (c : ℕ) (s : Str)
    → IsName n
    → IsName m
    → str_beq m n ≡ false
    → c ≤ 32
    → replace_from 0 (mark n) by (b'%' ∷ b'%' ∷ (m ++ b'%' ∷ b'%' ∷ c ∷ s))
      ≡ b'%' ∷ b'%' ∷ (m ++ b'%' ∷ b'%' ∷ replace_from 0 (mark n) by (c ∷ s))
replace-other n m by c s h k e b =
    let tail = b'%' ∷ b'%' ∷ c ∷ s in
    let (first, ignored, also) = inside_mark n m c (b'%' ∷ c ∷ s) h k b in
    let (none, second, third) = inside_mark n m c s h k b in
    replace-miss (mark n) by b'%' (b'%' ∷ (m ++ tail)) (starts_with-mark n m (b'%' ∷ c ∷ s) h k e)
    ∙ ap (λ r. b'%' ∷ r)
        (replace-miss (mark n) by b'%' (m ++ tail) first
          ∙ ap (λ r. b'%' ∷ r)
              (replace-quiet (n ++ b'%' ∷ b'%' ∷ []) by m tail (upper-quiet m (name-IsUpper m k))
                ∙ ap (λ r. m ++ r)
                    (replace-miss (mark n) by b'%' (b'%' ∷ c ∷ s) second
                      ∙ ap (λ r. b'%' ∷ r) (replace-miss (mark n) by b'%' (c ∷ s) third))))

pub mark-append : (m s : Str) → mark m ++ s ≡ b'%' ∷ b'%' ∷ (m ++ b'%' ∷ b'%' ∷ s)
mark-append m s = ap (λ r. b'%' ∷ b'%' ∷ r) (append_assoc m (b'%' ∷ b'%' ∷ []) s)
