-- ===== src/Config/Bounds.antt =====
-- What the constructor's arithmetic guarantees.
use native.Mathlib.Nat.{pow-le-pow_right, mul-le-mul_left}
use native.Mathlib.Omega.{pow_step, div_any}
use neocache.Config.{
  exponent_from, next_power_of_two, is_power_of_two, reduced_shard_amount, shift_of, shard_cap_of,
  determine_shard,
}
use neocache.Config.Powers.{
  pow_split, exponent, next_power_of_two-least, ncb-pow, quotient-lt, pow-lt, pow-lt_exponent,
  div_ceil_lem,
}
use neocache.Shard.{div_ceil}
use neocache.Prelude.{
  ℕ, zero, suc, ◌+◌, ◌-◌, ◌*◌, ◌/◌, ◌%◌, ◌^◌, ◌≤◌, ◌<◌, max, ◌≡◌, refl, true, false, eqb, ◌&&◌, inl,
  inr, ltb, Bool-cases, arith,
}

pub determine_shard-pow :
    (j n hash : ℕ) → n ≡ 2 ^ j → n < 2 ^ 64 → determine_shard (shift_of n) hash < n
unfolding determine_shard shift_of
determine_shard-pow j n hash at few =
    let low = pow-lt_exponent j 64 (rw at at few) in
    let whole : j + (64 - j) ≡ 64 = omega (arith, low) in
    let split : 2 ^ 64 ≡ 2 ^ j * 2 ^ (64 - j) = rw whole at (pow_split j (64 - j)) in
    rw (at, ncb-pow j)
      (quotient-lt (hash * 2 ^ 7 % 2 ^ 64) (2 ^ j) (2 ^ (64 - j)) (omega (arith, split)))

-- On a count of shards that is a power of two below 2 ^ 64, every hash selects one of them.
pub determine_shard-lt :
    (shard_amount hash : ℕ)
    → is_power_of_two shard_amount ≡ true
    → shard_amount < 2 ^ 64
    → determine_shard (shift_of shard_amount) hash < shard_amount
determine_shard-lt shard_amount hash power few =
    let (j, at) = exponent shard_amount power in determine_shard-pow j shard_amount hash at few

-- On at least one shard, the shards hold the requested capacity together, and less than one entry
-- per shard more.
pub shard_cap-sum :
    (cache_capacity shard_amount : ℕ)
    → 1 ≤ shard_amount
    → (cache_capacity ≤ shard_amount * shard_cap_of cache_capacity shard_amount)
      × (shard_amount * shard_cap_of cache_capacity shard_amount < cache_capacity + shard_amount)
unfolding shard_cap_of
shard_cap-sum zero shard_amount some_shard = omega arith
shard_cap-sum (suc c) shard_amount some_shard =
    let (some_cap, low, high) = div_ceil_lem (suc c) shard_amount (omega arith) some_shard in
    let same : max (div_ceil (suc c) shard_amount) 1 ≡ div_ceil (suc c) shard_amount =
      omega (arith, some_cap) in
    let not_zero : eqb (suc c) 0 ≡ false = ground arith in rw (not_zero, same) (low, high)

-- The least power of two above `n`, but at least two, does not pass a power of two above `n`.
capped :
    (n m j : ℕ)
    → m ≡ 2 ^ j
    → 1 < m
    → n ≤ m
    → ((i : ℕ) × (max (next_power_of_two n) 2 ≡ 2 ^ i))
      × (1 < max (next_power_of_two n) 2)
      × (max (next_power_of_two n) 2 ≤ m)
unfolding next_power_of_two
capped n m j at many low =
    let k = exponent_from n 0 n in
    let (above, below) = next_power_of_two-least n in
    let less : k < suc j =
      pow-lt_exponent k (suc j) (omega (arith, at, low, many, below, pow_step 2 j)) in
    let bound : 2 ^ k ≤ 2 ^ j = pow-le-pow_right {n = 2} (omega arith) (omega (arith, less)) in
    (two_power k, omega arith, omega (arith, bound, at, many))
  where
    two_power : (k : ℕ) → (i : ℕ) × (max (2 ^ k) 2 ≡ 2 ^ i)
    two_power zero = (1, refl)
    two_power (suc k) = (suc k, omega (arith, pow_step 2 k, pow-lt k))

-- From a count of shards that is a power of two and at least two, the constructor derives one
-- that is again a power of two and at least two, and not higher.
pub reduced_shard_amount-IsPower :
    (cache_capacity shard_amount : ℕ)
    → is_power_of_two shard_amount ≡ true
    → 1 < shard_amount
    → ((j : ℕ) × (reduced_shard_amount cache_capacity shard_amount ≡ 2 ^ j))
      × (1 < reduced_shard_amount cache_capacity shard_amount)
      × (reduced_shard_amount cache_capacity shard_amount ≤ shard_amount)
unfolding reduced_shard_amount
reduced_shard_amount-IsPower cache_capacity shard_amount power many =
    let (j, at) = exponent shard_amount power in
    elim (Bool-cases (ltb 0 cache_capacity && ltb (cache_capacity / shard_amount) 4)) [
      | inl small ↦
          let few : cache_capacity / shard_amount < 4 = ground (arith, small) in
          let law : shard_amount * (cache_capacity / shard_amount) + cache_capacity % shard_amount
              ≡ cache_capacity =
            div_any cache_capacity shard_amount in
          let atmost : cache_capacity / shard_amount ≤ 3 = omega (arith, few) in
          rw small (
            capped (cache_capacity / 4) shard_amount j at many
              (omega (arith, law, many, mul-le-mul_left shard_amount atmost)))
      | inr large ↦ rw large ((j, at), many, omega arith)
    ]
