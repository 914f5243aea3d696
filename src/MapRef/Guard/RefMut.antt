-- ===== src/MapRef/Guard/RefMut.antt =====
-- `RefMut` of src/mapref/one.rs, which is its bucket, as `Ref` is. `downgrade` keeps the pointers;
-- what it does to the lock is `downgrade` in Lock.
use neocache.Map.{pair}
use neocache.MapRef.Guard.{Place}
use neocache.MapRef.Guard.MappedRefMut.{MappedRefMut}
use neocache.Prelude.{◌⊎◌, inl, inr, Option, none, some, Run, ok, ◌>>=◌}
use neocache.Shard.{Item, hash_item, Shard, as_ref}
use neocache.Table.{Key, RawTable}

module _ {K V : Type 0} ⦃key : Key K⦄ (raw : RawTable (Item K V) hash_item) where
  open raw use {Bucket}

  unfoldable pub key_of : Shard raw → Bucket → Run K
  unfolding pair
  key_of s b = do p ← pair raw s b; ok p.0

  unfoldable pub value : Shard raw → Bucket → Run V
  unfolding pair
  value s b = do p ← pair raw s b; ok p.1

  -- An assignment through `value_mut`, the second part of `pair_mut`.
  unfoldable pub set_value : Shard raw → Bucket → V → Run (Shard raw)
  set_value s b v = do
    e ← as_ref raw s.map b
    ok (record s { map = raw.write s.map b (e.0, record e.1 { value = v }) })

  -- `f` gets the value as a `&mut V`: it answers with what it leaves there, and with the place in
  -- that value to which its result points.
  unfoldable pub map :
      {T : Type 0}
      → Shard raw
      → Bucket
      → (V → V × Place V T)
      → Run (Shard raw × MappedRefMut Bucket V T)
  unfolding value set_value
  map s b f = do
    v ← value s b
    s' ← set_value s b (f v).0
    ok (s', record { bucket = b; place = (f v).1 })

  -- The left result is `Err(self)`; what `f` has written stays also then.
  unfoldable pub try_map :
      {T : Type 0}
      → Shard raw
      → Bucket
      → (V → V × Option (Place V T))
      → Run (Shard raw × (Bucket ⊎ MappedRefMut Bucket V T))
  unfolding value set_value
  try_map s b f = do
    v ← value s b
    s' ← set_value s b (f v).0
    elim (f v).1 [
      | none ↦ ok (s', inl b)
      | some place ↦ ok (s', inr (record { bucket = b; place = place }))
    ]
