-- ===== src/Cache/Whole/Fresh.antt =====
-- The default constructors, and what an unbounded cache holds that is filled from a list.
use neocache.Cache.{Cache, insert, extend}
use neocache.Cache.Build.{constructor-IsCacheValid}
use neocache.Cache.Refine.{CacheBecomes, on_shard-Becomes}
use neocache.Cache.Valid.{IsCacheValid, value_at}
use neocache.Cache.Whole.{with_capacity, with_hasher, default, from_iter}
use neocache.Config.{
  exponent_from, next_power_of_two, is_power_of_two, default_shard_amount, reduced_shard_amount,
  shard_cap_of,
}
use neocache.Config.Powers.{pow-lt, pow-lt_exponent, next_power_of_two-least}
use neocache.Map
use neocache.Map.Room.{insert-Becomes}
use neocache.Map.Spec.{updated}
use neocache.Prelude.{
  ℕ, suc, ◌*◌, ◌^◌, ◌≤◌, ◌<◌, max, ◌≡◌, refl, ◌∙◌, true, Option, none, some, List, [], ◌∷◌, arith,
  Returns,
}
use neocache.Shard.{Item, hash_item}
use neocache.Table.{Key, RawTable}
use native.Mathlib.Omega.{pow_step}
use mathlib.Core.Path.{fun_ext}

exponent-between : (i j : ℕ) → 2 ^ i ≤ 2 ^ j → 2 ^ j < max (2 * 2 ^ i) 2 → j ≡ i
exponent-between i j low high =
    let some_i = pow-lt i in
    let up = pow-lt_exponent j (suc i) (omega (arith, high, some_i, pow_step 2 i)) in
    let down = pow-lt_exponent i (suc j) (omega (arith, low, some_i, pow_step 2 j)) in
    omega (arith, up, down)

next_power_of_two-IsPower : (n : ℕ) → is_power_of_two (next_power_of_two n) ≡ true
unfolding is_power_of_two next_power_of_two
next_power_of_two-IsPower n =
    let i = exponent_from n 0 n in
    let j = exponent_from (2 ^ i) 0 (2 ^ i) in
    let (low, high) = next_power_of_two-least (2 ^ i) in
    let same : j ≡ i = exponent-between i j low high in
    let powers : 2 ^ j ≡ 2 ^ i = rw same refl in ground (arith, powers)

-- The default count of shards is a power of two.
default_lem :
    (parallelism : ℕ)
    → 0 < parallelism
    → parallelism * 16 ≤ 2 ^ 63
    → (is_power_of_two (default_shard_amount parallelism) ≡ true)
      × (1 < default_shard_amount parallelism)
      × (default_shard_amount parallelism < 2 ^ 64)
unfolding default_shard_amount
default_lem parallelism some_thread few =
    let (low, high) = next_power_of_two-least (parallelism * 16) in
    (
      next_power_of_two-IsPower (parallelism * 16),
      omega (arith, low, some_thread),
      omega (arith, high, some_thread, few),
    )

no_cap : (amount : ℕ) → shard_cap_of 0 amount ≡ 0
unfolding shard_cap_of
no_cap amount = refl

-- The values that are stored after a list of pairs: each pair replaces an earlier one of its key.
abbrev pub last_of : {K V : Type 0} ⦃key : Key K⦄ → (K → Option V) → List (K × V) → K → Option V
last_of m [] = m
last_of m ((k, v) ∷ kvs) = last_of (updated m k (some v)) kvs

module _ {K V : Type 0} ⦃key : Key K⦄ (raw : RawTable (Item K V) hash_item) where
  -- An unbounded cache, every shard of capacity 0, stores every pair.
  pub unbounded_insert :
      (c : Cache raw) (v : IsCacheValid raw 0 c) (k : K) (value : V)
      → Returns
          (insert raw c k value)
          (CacheBecomes raw 0 (updated (value_at raw c) k (some value)) (value_at raw c k))
  unfolding insert
  unbounded_insert c v k value =
      on_shard-Becomes raw 0 c v k (λ x. some value) (λ x. x) (λ s. Map.insert raw s k value)
        (λ s valid within at.
          insert-Becomes raw s k value (λ new enabled. absurd (omega (arith, at, enabled))) valid
            within)

  unbounded : (c : Cache raw) (cap : ℕ) → cap ≡ 0 → IsCacheValid raw cap c → IsCacheValid raw 0 c
  unbounded c cap e v = rw e at v

  pub last_of-congr :
      (m n : K → Option V) (kvs : List (K × V))
      → ((j : K) → m j ≡ n j)
      → (j : K) → last_of m kvs j ≡ last_of n kvs j
  last_of-congr m n kvs same = let e : m ≡ n = fun_ext same in λ j. rw e

  extend-last_of :
      (kvs : List (K × V)) (c : Cache raw)
      → IsCacheValid raw 0 c
      → Returns (extend raw c kvs) (λ d.
        IsCacheValid raw 0 d × ((j : K) → value_at raw d j ≡ last_of (value_at raw c) kvs j))
  unfolding extend
  extend-last_of [] c v = (c, refl, (v, λ j. refl))
  extend-last_of ((k, x) ∷ kvs) c v =
      let (r, run, p) = unbounded_insert c v k x in
      let (d, rest, (q, holds)) = extend-last_of kvs r.0 p.valid in
      (
        d,
        ground (arith, run, rest),
        (
          q,
          λ j.
              holds j
              ∙ last_of-congr (value_at raw r.0) (updated (value_at raw c) k (some x)) kvs p.map j,
        ),
      )

  -- The default constructor makes a well-formed unbounded cache without entries.
  pub with_hasher-IsCacheValid :
      (parallelism : ℕ)
      → 0 < parallelism
      → parallelism * 16 ≤ 2 ^ 63
      → (c : Cache raw) × (with_hasher raw parallelism ≡ some c)
        × IsCacheValid raw 0 c
        × ((j : K) → value_at raw c j ≡ none)
  unfolding with_hasher with_capacity
  with_hasher-IsCacheValid parallelism some_thread few =
      let amount = default_shard_amount parallelism in
      let (power, many, small) = default_lem parallelism some_thread few in
      let (c, built, valid, count, empty) =
        constructor-IsCacheValid raw 0 amount power many small in
      (c, built, unbounded c _ (no_cap (reduced_shard_amount 0 amount)) valid, empty)

  -- Round trip: `from_iter` on a list of pairs, on at least one and at most 2 ^ 59 threads, returns
  -- a well-formed unbounded cache that holds, for each key, the value of its last pair in the list,
  -- and no other key.
  pub from_iter-last_of :
      (parallelism : ℕ) (pairs : List (K × V))
      → 0 < parallelism
      → parallelism * 16 ≤ 2 ^ 63
      → Returns
          (from_iter raw parallelism pairs)
          (λ d. IsCacheValid raw 0 d × ((j : K) → value_at raw d j ≡ last_of (λ i. none) pairs j))
  unfolding from_iter default
  from_iter-last_of parallelism pairs some_thread few =
      let (c, built, valid, empty) = with_hasher-IsCacheValid parallelism some_thread few in
      let (d, run, (v, holds)) = extend-last_of pairs c valid in
      (
        d,
        ground (arith, built, run),
        (v, λ j. holds j ∙ last_of-congr (value_at raw c) (λ i. none) pairs empty j),
      )
