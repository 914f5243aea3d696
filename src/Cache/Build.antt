-- ===== src/Cache/Build.antt =====
-- The constructor of the cache, and what a sequence of insertions into a fresh cache can leave.
use neocache.Cache.{Cache, replicate, with_capacity_and_shard_amount, len, extend}
use neocache.Cache.At.{shard_at_bound, length-replicate, replicate-All, shard_at-replicate}
use neocache.Cache.Refine.{extend_lem, len-le}
use neocache.Cache.Valid.{IsCacheValid, IsGood, index, value_at, value_at-ok}
use neocache.Config.{is_power_of_two, reduced_shard_amount, shift_of, shard_cap_of, determine_shard}
use neocache.Config.Bounds.{determine_shard-pow, shard_cap-sum, reduced_shard_amount-IsPower}
use neocache.Config.Powers.{factor-pos}
use neocache.Prelude.{ℕ, ◌+◌, ◌^◌, ◌<◌, ◌≡◌, refl, ◌∙◌, true, none, some, List, length, arith, ok}
use neocache.Shard
use neocache.Shard.{Item, hash_item, Shard}
use neocache.Shard.New.{new-IsValid}
use neocache.Table.{Key, RawTable}

module _ {K V : Type 0} ⦃key : Key K⦄ (raw : RawTable (Item K V) hash_item) where
  new-IsGood : (cap : ℕ) → IsGood raw cap (Shard.new raw 0 cap)
  unfolding Shard.new
  new-IsGood cap = let p = new-IsValid raw 0 cap in (p.0, p.1, refl)

  -- What the constructor makes of a count of shards that it has reduced.
  abbrev made : ℕ → ℕ → Cache raw
  made cache_capacity amount = record {
    shift = shift_of amount;
    shards = replicate amount (Shard.new raw 0 (shard_cap_of cache_capacity amount));
    cache_capacity = cache_capacity;
  }

  module _ (cache_capacity shard_amount : ℕ) (power : is_power_of_two shard_amount ≡ true)
      (many : 1 < shard_amount) (few : shard_amount < 2 ^ 64) where
    abbrev amount : ℕ
    amount = reduced_shard_amount cache_capacity shard_amount

    abbrev shard_cap : ℕ
    shard_cap = shard_cap_of cache_capacity amount

    -- On a count of shards that is a power of two, at least two and below 2 ^ 64, the constructor
    -- does not panic: it builds a well-formed cache without entries, with the reduced count of
    -- shards and each of their share of the capacity.
    pub constructor-IsCacheValid :
        (c : Cache raw) × (with_capacity_and_shard_amount raw cache_capacity shard_amount ≡ some c)
        × IsCacheValid raw shard_cap c
        × (length c.shards ≡ amount)
        × ((k : K) → value_at raw c k ≡ none)
    unfolding with_capacity_and_shard_amount
    constructor-IsCacheValid =
        let ((j, at), two, fewer) =
          reduced_shard_amount-IsPower cache_capacity shard_amount power many in
        let c = made cache_capacity amount in
        let count : length c.shards ≡ amount = length-replicate amount _ in
        let selects : (hash : ℕ) → determine_shard c.shift hash < amount =
          λ hash. determine_shard-pow j amount hash at (omega (arith, fewer, few)) in
        (
          c,
          ground (arith, power, many),
          record {
            good = replicate-All (IsGood raw shard_cap) amount _ (new-IsGood shard_cap);
            selects = λ hash. rw count (selects hash);
            home = λ i s j there away.
                let bound : i < length c.shards = shard_at_bound c.shards i s there in
                let low : i < amount = rw count at bound in
                let is : Shard.new raw 0 shard_cap ≡ s =
                  ground
                    (arith, there, shard_at-replicate amount i (Shard.new raw 0 shard_cap) low) in
                rw (← is) ((new-IsValid raw 0 shard_cap).2 j);
          },
          count,
          λ k.
              value_at-ok raw c k (Shard.new raw 0 shard_cap)
                (shard_at-replicate amount (index raw c k) _ (selects (key.hash_one k)))
              ∙ (new-IsValid raw 0 shard_cap).2 k,
        )

    -- On a count of shards that is a power of two, at least two and below 2 ^ 64, and a capacity
    -- above zero, the constructor does not panic, any sequence of insertions into the fresh cache
    -- runs to its end, and what it leaves has fewer entries than the capacity and the count of
    -- shards together.
    pub extend-bounded :
        (kvs : List (K × V))
        → 0 < cache_capacity
        → (c d : Cache raw) × (with_capacity_and_shard_amount raw cache_capacity shard_amount
            ≡ some c)
          × (extend raw c kvs ≡ ok d)
          × (len raw d < cache_capacity + shard_amount)
    extend-bounded kvs some_capacity =
        let (c, built, valid, count, empty) = constructor-IsCacheValid in
        let (d, run, (valid', count')) = extend_lem raw shard_cap kvs c valid in
        let (_, two, fewer) = reduced_shard_amount-IsPower cache_capacity shard_amount power many in
        let (enough, share) = shard_cap-sum cache_capacity amount (omega (arith, two)) in
        let bound =
          len-le raw shard_cap d
            (factor-pos amount shard_cap (omega (arith, enough, some_capacity))) valid' in
        let n : length d.shards ≡ amount = count' ∙ count in
        (c, d, built, run, omega (arith, rw n at bound, share, fewer))
