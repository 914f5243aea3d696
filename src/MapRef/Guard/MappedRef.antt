-- ===== src/MapRef/Guard/MappedRef.antt =====
-- `MappedRef` of src/mapref/one.rs.
use neocache.MapRef.Guard.{Place, inner, read}
use neocache.Prelude.{◌⊎◌, inl, inr, Option, none, some, Run, ok, ◌>>=◌}
use neocache.Shard.{Item, hash_item, Shard, as_ref}
use neocache.Table.{Key, RawTable}

pub record MappedRef (B V T : Type 0) : Type 0 where
  pub bucket : B
  pub place : Place V T

module _ {K V T : Type 0} ⦃key : Key K⦄ (raw : RawTable (Item K V) hash_item) where
  open raw use {Bucket}

  unfoldable pub pair : Shard raw → MappedRef Bucket V T → Run (K × T)
  pair s r = do e ← as_ref raw s.map r.bucket; t ← read (r.place.look e.1.value); ok (e.0, t)

  unfoldable pub key_of : Shard raw → MappedRef Bucket V T → Run K
  unfolding pair
  key_of s r = do p ← pair s r; ok p.0

  unfoldable pub value : Shard raw → MappedRef Bucket V T → Run T
  unfolding pair
  value s r = do p ← pair s r; ok p.1

  -- `f` tells the place that its result points to.
  unfoldable pub map :
      {U : Type 0} → Shard raw → MappedRef Bucket V T → (T → Place T U) → Run (MappedRef Bucket V U)
  unfolding value inner
  map s r f = do t ← value s r; ok (record { bucket = r.bucket; place = inner r.place (f t) })

  -- The left result is `Err(self)`.
  unfoldable pub try_map :
      {U : Type 0}
      → Shard raw
      → MappedRef Bucket V T
      → (T → Option (Place T U))
      → Run (MappedRef Bucket V T ⊎ MappedRef Bucket V U)
  unfolding value inner
  try_map s r f = do
    t ← value s r
    elim (f t) [
      | none ↦ ok (inl r)
      | some place ↦ ok (inr (record { bucket = r.bucket; place = inner r.place place }))
    ]
