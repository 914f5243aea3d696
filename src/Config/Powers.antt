-- ===== src/Config/Powers.antt =====
-- Powers of two: their exponents, products and quotients.
use native.Mathlib.Nat.{mul-le-mul_right, pow-le-pow_right}
use native.Mathlib.Omega.{pow_step, div_any}
use neocache.Config.{exponent_from, next_power_of_two, is_power_of_two, zeros_from, ncb}
use neocache.Shard.{div_ceil}
use neocache.Prelude.{
  ℕ, zero, suc, ◌+◌, ◌-◌, ◌*◌, ◌/◌, ◌%◌, ◌^◌, ◌≤◌, ◌<◌, max, ◌≡◌, refl, true, inl, inr, leb,
  Bool-cases, leb→le, not-leb, arith,
}

pub pow_split : (j m : ℕ) → 2 ^ (j + m) ≡ 2 ^ j * 2 ^ m
pow_split zero m = let z : 0 + m ≡ m = omega arith in rw z (omega arith)
pow_split (suc j) m =
    let e : suc j + m ≡ suc (j + m) = omega arith in
    rw (e, pow_step 2 (j + m), pow_step 2 j, pow_split j m) (grind arith)

pub pow-lt : (n : ℕ) → n < 2 ^ n
pow-lt zero = omega arith
pow-lt (suc n) = omega (arith, pow-lt n, pow_step 2 n)

-- The least power of two that is at least `n` is less than twice `n`.
pub exponent_from-least :
    (fuel k n : ℕ)
    → n ≤ 2 ^ (fuel + k)
    → 2 ^ k < max (2 * n) 2
    → (n ≤ 2 ^ exponent_from fuel k n) × (2 ^ exponent_from fuel k n < max (2 * n) 2)
unfolding exponent_from
exponent_from-least zero k n enough low = let z : 0 + k ≡ k = omega arith in (rw z at enough, low)
exponent_from-least (suc fuel) k n enough low = elim (Bool-cases (leb n (2 ^ k))) [
  | inl here ↦ rw here (leb→le n (2 ^ k) here, low)
  | inr more ↦
      let shifted : suc fuel + k ≡ fuel + suc k = omega arith in
      rw more (
        exponent_from-least fuel (suc k) n (rw (← shifted) enough)
          (omega (arith, not-leb n (2 ^ k) more, pow_step 2 k)))
]

pub next_power_of_two-least :
    (n : ℕ) → (n ≤ next_power_of_two n) × (next_power_of_two n < max (2 * n) 2)
unfolding next_power_of_two
next_power_of_two-least n =
    let z : n + 0 ≡ n = omega arith in
    exponent_from-least n 0 n (rw z (omega (arith, pow-lt n))) (omega arith)

pub zeros_from-pow : (fuel j : ℕ) → j ≤ fuel → zeros_from fuel (2 ^ j) ≡ j
unfolding zeros_from
zeros_from-pow zero j low = omega arith
zeros_from-pow (suc fuel) zero low = refl
zeros_from-pow (suc fuel) (suc j) low =
    let half : 2 ^ suc j / 2 ≡ 2 ^ j = omega (arith, pow_step 2 j) in
    let even : 2 ^ suc j % 2 ≡ 0 = omega (arith, pow_step 2 j) in
    rw (half, even) (ground (arith, zeros_from-pow fuel j (omega arith)))

pub ncb-pow : (j : ℕ) → ncb (2 ^ j) ≡ j
unfolding ncb
ncb-pow j = zeros_from-pow (2 ^ j) j (omega (arith, pow-lt j))

-- The exponent of a power of two.
pub exponent : (n : ℕ) → is_power_of_two n ≡ true → (j : ℕ) × (n ≡ 2 ^ j)
unfolding is_power_of_two next_power_of_two
exponent n h = (exponent_from n 0 n, ground arith)

pub quotient-lt : (x p q : ℕ) → x < p * q → x / q < p
quotient-lt x p q low = elim (Bool-cases (leb p (x / q))) [
  | inl high ↦ absurd (omega (arith, low, mul-le-mul_right q (leb→le p (x / q) high)))
  | inr ok ↦ not-leb p (x / q) ok
]

pub pow-lt_exponent : (j m : ℕ) → 2 ^ j < 2 ^ m → j < m
pow-lt_exponent j m low = elim (Bool-cases (leb m j)) [
  | inl high ↦ absurd (omega (arith, low, pow-le-pow_right {n = 2} (omega arith) (leb→le m j high)))
  | inr ok ↦ not-leb m j ok
]

pub factor-pos : (n q : ℕ) → 1 ≤ n * q → 1 ≤ q
factor-pos n zero h = omega (arith, h)
factor-pos n (suc q) h = omega arith

-- A quotient rounded up.
pub div_ceil_lem :
    (c n : ℕ)
    → 1 ≤ c
    → 1 ≤ n
    → (1 ≤ div_ceil c n) × (c ≤ n * div_ceil c n) × (n * div_ceil c n < c + n)
div_ceil_lem c n some_c some_n =
    let law : n * div_ceil c n + (c + (n - 1)) % n ≡ c + (n - 1) = div_any (c + (n - 1)) n in
    let low : c ≤ n * div_ceil c n = omega (arith, law) in
    (factor-pos n (div_ceil c n) (omega (arith, low)), low, omega (arith, law))
