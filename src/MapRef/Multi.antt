-- ===== src/MapRef/Multi.antt =====
-- The guards of src/mapref/multiple.rs that the iterators give. A guard is the shard that its lock
-- protects, by its index, with the bucket that it points into.
pub mod Through
use neocache.Cache.{Cache, shard_at, put_shard}
use neocache.Map
use neocache.Prelude.{ℕ, Run, ok, ◌>>=◌}
use neocache.Shard.{Item, hash_item, as_ref}
use neocache.Table.{Key, RawTable}

pub record RefMulti (B : Type 0) : Type 0 where
  pub shard_i : ℕ
  pub bucket : B

pub record RefMutMulti (B : Type 0) : Type 0 where
  pub shard_i : ℕ
  pub bucket : B

module _ {K V : Type 0} ⦃key : Key K⦄ (raw : RawTable (Item K V) hash_item) where
  open raw use {Bucket}

  abbrev pub new : ℕ → Bucket → RefMulti Bucket
  new i b = record { shard_i = i; bucket = b }

  abbrev pub mut_new : ℕ → Bucket → RefMutMulti Bucket
  mut_new i b = record { shard_i = i; bucket = b }

  unfoldable pub pair : Cache raw → RefMulti Bucket → Run (K × V)
  unfolding shard_at Map.pair
  pair c r = do s ← shard_at c.shards r.shard_i; Map.pair raw s r.bucket

  unfoldable pub key_of : Cache raw → RefMulti Bucket → Run K
  unfolding pair
  key_of c r = do p ← pair c r; ok p.0

  unfoldable pub value : Cache raw → RefMulti Bucket → Run V
  unfolding pair
  value c r = do p ← pair c r; ok p.1

  -- `Deref::deref`
  unfoldable pub deref : Cache raw → RefMulti Bucket → Run V
  unfolding value
  deref c r = value c r

  unfoldable pub mut_pair : Cache raw → RefMutMulti Bucket → Run (K × V)
  unfolding shard_at Map.pair
  mut_pair c r = do s ← shard_at c.shards r.shard_i; Map.pair raw s r.bucket

  unfoldable pub mut_key : Cache raw → RefMutMulti Bucket → Run K
  unfolding mut_pair
  mut_key c r = do p ← mut_pair c r; ok p.0

  unfoldable pub mut_value : Cache raw → RefMutMulti Bucket → Run V
  unfolding mut_pair
  mut_value c r = do p ← mut_pair c r; ok p.1

  unfoldable pub mut_deref : Cache raw → RefMutMulti Bucket → Run V
  unfolding mut_value
  mut_deref c r = mut_value c r

  -- An assignment through `value_mut`, the second part of `pair_mut`.
  unfoldable pub set_value : Cache raw → RefMutMulti Bucket → V → Run (Cache raw)
  unfolding shard_at put_shard
  set_value c r v = do
    s ← shard_at c.shards r.shard_i
    e ← as_ref raw s.map r.bucket
    let s' = record s { map = raw.write s.map r.bucket (e.0, record e.1 { value = v }) }
    ok (record c { shards = put_shard c.shards r.shard_i s' })
