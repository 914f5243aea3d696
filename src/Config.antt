-- ===== src/Config.antt =====
-- The arithmetic of the constructor of src/lib.rs: shard count, shard capacity, and the shard of a
-- hash.
pub mod Powers
pub mod Bounds
use neocache.Prelude.{
  ℕ, zero, suc, ◌+◌, ◌-◌, ◌*◌, ◌/◌, ◌%◌, ◌^◌, max, Bool, ◌&&◌, leb, ltb, eqb, if◌then◌else◌,
}
use neocache.Shard.{div_ceil}

-- The least exponent from `k` on whose power of two is at least `n`, as far as the fuel goes.
unfoldable pub exponent_from : ℕ → ℕ → ℕ → ℕ
exponent_from zero k n = k
exponent_from (suc fuel) k n =
    let next = exponent_from fuel (suc k) n in if leb n (2 ^ k) then k else next

-- `usize::next_power_of_two`
unfoldable pub next_power_of_two : ℕ → ℕ
unfolding exponent_from
next_power_of_two n = 2 ^ exponent_from n 0 n

-- `usize::is_power_of_two`
unfoldable pub is_power_of_two : ℕ → Bool
unfolding next_power_of_two
is_power_of_two n = eqb (next_power_of_two n) n

-- How often the second number can be halved without remainder, as far as the fuel goes.
unfoldable pub zeros_from : ℕ → ℕ → ℕ
zeros_from zero n = 0
zeros_from (suc fuel) n =
    let rest = zeros_from fuel (n / 2) in if eqb (n % 2) 0 then suc rest else 0

-- `trailing_zeros` of a number above zero.
unfoldable pub ncb : ℕ → ℕ
unfolding zeros_from
ncb shard_amount = zeros_from shard_amount shard_amount

-- `parallelism` is what `available_parallelism` answers.
unfoldable pub default_shard_amount : ℕ → ℕ
unfolding next_power_of_two
default_shard_amount parallelism = next_power_of_two (parallelism * 16)

-- The shard count that the constructor uses for the one it is given.
unfoldable pub reduced_shard_amount : ℕ → ℕ → ℕ
unfolding next_power_of_two
reduced_shard_amount cache_capacity shard_amount =
    if ltb 0 cache_capacity && ltb (cache_capacity / shard_amount) 4
    then max (next_power_of_two (cache_capacity / 4)) 2
    else shard_amount

unfoldable pub shift_of : ℕ → ℕ
unfolding ncb
shift_of shard_amount = 64 - ncb shard_amount

unfoldable pub shard_cap_of : ℕ → ℕ → ℕ
shard_cap_of cache_capacity shard_amount =
    if eqb cache_capacity 0 then 0 else max (div_ceil cache_capacity shard_amount) 1

-- `(hash << 7) >> shift` on 64 bits.
unfoldable pub determine_shard : ℕ → ℕ → ℕ
determine_shard shift hash = hash * 2 ^ 7 % 2 ^ 64 / 2 ^ shift
