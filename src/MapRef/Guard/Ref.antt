-- ===== src/MapRef/Guard/Ref.antt =====
-- `Ref` of src/mapref/one.rs, which is its bucket.
use neocache.Map.{pair}
use neocache.MapRef.Guard.{Place}
use neocache.MapRef.Guard.MappedRef.{MappedRef}
use neocache.Prelude.{◌⊎◌, inl, inr, Option, none, some, Run, ok, ◌>>=◌}
use neocache.Shard.{Item, hash_item, Shard}
use neocache.Table.{Key, RawTable}

module _ {K V : Type 0} ⦃key : Key K⦄ (raw : RawTable (Item K V) hash_item) where
  open raw use {Bucket}

  unfoldable pub key_of : Shard raw → Bucket → Run K
  unfolding pair
  key_of s b = do p ← pair raw s b; ok p.0

  unfoldable pub value : Shard raw → Bucket → Run V
  unfolding pair
  value s b = do p ← pair raw s b; ok p.1

  -- `f` tells the place that its result points to.
  unfoldable pub map :
      {T : Type 0} → Shard raw → Bucket → (V → Place V T) → Run (MappedRef Bucket V T)
  unfolding value
  map s b f = do v ← value s b; ok (record { bucket = b; place = f v })

  -- The left result is `Err(self)`.
  unfoldable pub try_map :
      {T : Type 0}
      → Shard raw
      → Bucket
      → (V → Option (Place V T))
      → Run (Bucket ⊎ MappedRef Bucket V T)
  unfolding value
  try_map s b f = do
    v ← value s b
    elim (f v) [ none ↦ ok (inl b) | some place ↦ ok (inr (record { bucket = b; place = place })) ]
