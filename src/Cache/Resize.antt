-- ===== src/Cache/Resize.antt =====
-- The operations of src/lib.rs and src/shard.rs that resize the raw tables.
pub mod Effects
use neocache.Cache.{Cache}
use neocache.Cache.Whole.{each_shard}
use neocache.Map
use neocache.Prelude.{ℕ, Bool, true, false, ◌&&◌, List, [], ◌∷◌, if◌then◌else◌, Run, ok, ◌>>=◌}
use neocache.Shard.{Item, hash_item, Shard}
use neocache.Table.{Key, RawTable}

module _ {K V : Type 0} ⦃key : Key K⦄ (raw : RawTable (Item K V) hash_item) where
  open raw use {shrink_to, try_reserve as reserve_table}

  unfoldable pub map_shrink_to : Shard raw → ℕ → Shard raw
  map_shrink_to s min_capacity = record s { map = shrink_to s.map min_capacity }

  -- `false` is `Err`.
  unfoldable pub map_try_reserve : Shard raw → ℕ → Shard raw × Bool
  map_try_reserve s additional =
      let (t, done) = reserve_table s.map additional in (record s { map = t }, done)

  unfoldable pub shrink_to_fit : Cache raw → Run (Cache raw)
  unfolding each_shard map_shrink_to Map.len
  shrink_to_fit c = do
    ss ← each_shard raw (λ s. ok (map_shrink_to s (Map.len raw s))) c.shards
    ok (record c { shards = ss })

  -- The loop over the shards, which the first failure leaves.
  unfoldable pub reserve_shards : ℕ → List (Shard raw) → List (Shard raw) × Bool
  unfolding map_try_reserve
  reserve_shards additional [] = ([], true)
  reserve_shards additional (s ∷ ss) =
      let (t, done) = map_try_reserve s additional in
      let (ts, all) = reserve_shards additional ss in
      if done then (t ∷ ts, all) else (t ∷ ss, false)

  unfoldable pub try_reserve : Cache raw → ℕ → Cache raw × Bool
  unfolding reserve_shards
  try_reserve c additional =
      let (ss, done) = reserve_shards additional c.shards in (record c { shards = ss }, done)
