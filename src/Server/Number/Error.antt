-- ===== src/Server/Number/Error.antt =====
-- How far the sums in binary64 are from the exact ones.
use native.Mathlib.Nat.{div-add-mod', mod-lt}
use taymna.Common.{
  ℕ, zero, suc, ◌+◌, ◌-◌, ◌*◌, ◌/◌, ◌%◌, ◌^◌, ◌≤◌, ◌<◌, ◌≡◌, arith, ltb, Bool-cases, inl, inr,
}
use taymna.Server.Number.{
  Number, bits, bit_length, to_nearest, binary64, seconds_of, add, bits-le, power-le,
  product_positive,
}

-- Two numbers are at most `e` apart.
pub record IsNear (e a b : ℕ) : Type 0 where
  pub below : a ≤ b + e
  pub above : b ≤ a + e

to_nearest-IsNear : (m n : ℕ) → 0 < n → IsNear n (2 * (to_nearest m n * n)) (2 * m)
unfolding to_nearest
to_nearest-IsNear m n p =
    let q = m / n in let r = m % n in let e = div-add-mod' m n in let l = mod-lt m p in grind arith

power-bound : (b : ℕ) → 2 ^ b < 2 ^ 97 → b ≤ 96
power-bound b h = elim (Bool-cases (ltb 96 b)) [
  | inl e ↦ absurd (omega (arith, power-le 97 b (ground arith)))
  | inr e ↦ ground arith
]

-- Below 2^96 the last place is at most 2^43.
place-bound : (q : ℕ) → q < 2 ^ 96 → 2 ^ (bit_length q - 53) ≤ 2 ^ 43
unfolding bits
place-bound zero h = omega arith
place-bound (suc q) h =
    let b = bit_length (suc q) in
    let le = bits-le (suc q) (suc q) (omega arith) (omega arith) in
    power-le (b - 53) 43 (omega (arith, power-bound b (omega (arith, le))))

-- Half a last place, in thousandths of a unit.
abbrev pub half_place : ℕ
half_place = 500 * 2 ^ 43

place_positive : (q : ℕ) → 0 < 2 ^ (bit_length q - 53)
place_positive q = power-le 0 (bit_length q - 53) (omega arith)

regroup : (t n place : ℕ) → t * (n * place) ≡ n * (t * place)
regroup t n place = grind arith

times-le : (n a b : ℕ) → a ≤ b → n * a ≤ n * b
times-le n a b h = grind arith

binary64-IsNear :
    (m n : ℕ) → 0 < n → m / n < 2 ^ 96 → IsNear (n * 2 ^ 43) (2 * (n * binary64 m n)) (2 * m)
unfolding binary64
binary64-IsNear m n p h =
    let place = 2 ^ (bit_length (m / n) - 53) in
    let near =
      to_nearest-IsNear m (n * place) (product_positive n place p (place_positive (m / n))) in
    omega (
      arith,
      near,
      regroup (to_nearest m (n * place)) n place,
      times-le n place (2 ^ 43) (place-bound (m / n) h),
    )

pub seconds_of-IsNear :
    (ms : ℕ) → ms < 2 ^ 43 → IsNear half_place (1000 * seconds_of ms) (ms * 2 ^ 62)
unfolding seconds_of
seconds_of-IsNear ms h =
    omega (arith, binary64-IsNear (ms * 2 ^ 62) 1000 (omega arith) (omega arith))

pub add-IsNear :
    (a b : Number) → a + b < 2 ^ 96 → IsNear half_place (1000 * add a b) (1000 * (a + b))
unfolding add
add-IsNear a b h = omega (arith, binary64-IsNear (a + b) 1 (omega arith) (omega arith))
