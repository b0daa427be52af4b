-- ===== src/Server/Number.antt =====
-- The numbers of JavaScript as api/src/modules/reports/usage.ts uses them for seconds: IEEE 754
-- binary64, rounded to the nearest with ties to even. A number that is not negative is counted in
-- units of 2^-62. The least one that occurs, a thousandth, is more than 2^52 of these, so that the 53
-- bits of a number never reach below a unit.
pub mod Error
use taymna.Common.{
  ℕ, zero, suc, ◌+◌, ◌-◌, ◌*◌, ◌/◌, ◌%◌, ◌^◌, ◌≤◌, ◌<◌, ◌≡◌, refl, arith, ltb, if◌then◌else◌,
}

abbrev pub Number : Type 0
Number = ℕ

-- How many binary digits a number has. The number itself is fuel enough, since each digit halves it.
pub bits : (fuel n : ℕ) → ℕ
bits zero n = 0
bits (suc fuel) zero = 0
bits (suc fuel) (suc n) = suc (bits fuel (suc n / 2))

abbrev pub bit_length : ℕ → ℕ
bit_length n = bits n n

-- The nearest integer to a quotient, and of two the even one.
pub to_nearest : ℕ → ℕ → ℕ
to_nearest m n =
    let q = m / n in
    let r = m % n in if ltb (2 * r) n then q else if ltb n (2 * r) then q + 1 else q + q % 2

-- The quotient of two integers, in units, to 53 bits.
unfoldable pub binary64 : ℕ → ℕ → Number
unfolding bits to_nearest
binary64 m n = let place = 2 ^ (bit_length (m / n) - 53) in to_nearest m (n * place) * place

-- `overlapMs / 1000`
unfoldable pub seconds_of : ℕ → Number
unfolding binary64
seconds_of ms = binary64 (ms * 2 ^ 62) 1000

unfoldable pub add : Number → Number → Number
unfolding binary64
add a b = binary64 (a + b) 1

-- `Math.round`, which is exact and takes a half up.
unfoldable pub math_round : Number → ℕ
math_round x = (x + 2 ^ 61) / 2 ^ 62

pub power-suc : (k : ℕ) → 2 ^ suc k ≡ 2 * 2 ^ k
power-suc k = omega arith

bits-zero : (fuel : ℕ) → bits fuel 0 ≡ 0
unfolding bits
bits-zero zero = refl
bits-zero (suc fuel) = refl

pub bits-le : (fuel n : ℕ) → n ≤ fuel → 0 < n → 2 ^ bits fuel n ≤ 2 * n
unfolding bits
bits-le zero n h p = absurd (omega arith)
bits-le (suc fuel) zero h p = absurd (omega arith)
bits-le (suc fuel) (suc zero) h p = rw (bits-zero fuel) (omega arith)
bits-le (suc fuel) (suc (suc n)) h p =
    rw (power-suc (bits fuel (suc (suc n) / 2)))
      (omega (arith, bits-le fuel (suc (suc n) / 2) (omega arith) (omega arith)))

pub bits_enough : (fuel n : ℕ) → n ≤ fuel → n < 2 ^ bits fuel n
unfolding bits
bits_enough zero zero h = omega arith
bits_enough zero (suc n) h = absurd (omega arith)
bits_enough (suc fuel) zero h = omega arith
bits_enough (suc fuel) (suc n) h =
    rw (power-suc (bits fuel (suc n / 2)))
      (omega (arith, bits_enough fuel (suc n / 2) (omega arith)))

pub power-le : (j k : ℕ) → j ≤ k → 2 ^ j ≤ 2 ^ k
power-le zero zero h = omega arith
power-le zero (suc k) h = rw (power-suc k) (omega (arith, power-le zero k (omega arith)))
power-le (suc j) zero h = absurd (omega arith)
power-le (suc j) (suc k) h =
    rw (power-suc j, power-suc k) (omega (arith, power-le j k (omega arith)))

place-le : (b q : ℕ) → q < 2 ^ b → 2 ^ b ≤ 2 * q → 2 ^ (b - 53) ≤ q
place-le zero q l h = omega arith
place-le (suc b) q l h = omega (arith, rw (power-suc b) at h, power-le (suc b - 53) b (omega arith))

quotient_positive : (m n : ℕ) → 0 < n → n ≤ m → 0 < m / n
quotient_positive m n p h = grind arith

to_nearest_positive : (m n : ℕ) → 0 < n → n ≤ m → 0 < to_nearest m n
unfolding to_nearest
to_nearest_positive m n p h = ground (arith, quotient_positive m n p h)

pub product_positive : (m n : ℕ) → 0 < m → 0 < n → 0 < m * n
product_positive m n h k = grind arith

-- No part of a session is lost: a duration is more than nothing in seconds, too.
pub seconds_of_positive : (ms : ℕ) → 0 < ms → 0 < seconds_of ms
unfolding seconds_of binary64
seconds_of_positive ms h =
    let m = ms * 2 ^ 62 in
    let q = m / 1000 in
    let place = 2 ^ (bit_length q - 53) in
    let some : 0 < place = power-le 0 (bit_length q - 53) (omega arith) in
    let fits : place ≤ q =
      place-le (bit_length q) q (bits_enough q q (omega arith))
        (bits-le q q (omega arith) (omega arith)) in
    let near = to_nearest_positive m (1000 * place) (omega arith) (omega arith) in
    product_positive _ place near some
