-- ===== src/MapRef/Guard/MappedRefMut.antt =====
-- `MappedRefMut` of src/mapref/one.rs.
use neocache.MapRef.Guard.{Place, inner, read}
use neocache.Prelude.{◌⊎◌, inl, inr, Option, none, some, Run, ok, ◌>>=◌}
use neocache.Shard.{Item, hash_item, Shard, as_ref}
use neocache.Table.{Key, RawTable}

pub record MappedRefMut (B V T : Type 0) : Type 0 where
  pub bucket : B
  pub place : Place V T

module _ {K V T : Type 0} ⦃key : Key K⦄ (raw : RawTable (Item K V) hash_item) where
  open raw use {Bucket}

  unfoldable pub pair : Shard raw → MappedRefMut Bucket V T → Run (K × T)
  pair s r = do e ← as_ref raw s.map r.bucket; t ← read (r.place.look e.1.value); ok (e.0, t)

  unfoldable pub key_of : Shard raw → MappedRefMut Bucket V T → Run K
  unfolding pair
  key_of s r = do p ← pair s r; ok p.0

  unfoldable pub value : Shard raw → MappedRefMut Bucket V T → Run T
  unfolding pair
  value s r = do p ← pair s r; ok p.1

  -- An assignment through `value_mut`, the second part of `pair_mut`.
  unfoldable pub set_value : Shard raw → MappedRefMut Bucket V T → T → Run (Shard raw)
  unfolding pair
  set_value s r t = do
    p ← pair s r
    e ← as_ref raw s.map r.bucket
    ok (record s {
      map = raw.write s.map r.bucket (e.0, record e.1 { value = r.place.put e.1.value t });
    })

  -- `f` gets its place as a `&mut T`: it answers with what it leaves there, and with the place in
  -- it to which its result points.
  unfoldable pub map :
      {U : Type 0}
      → Shard raw
      → MappedRefMut Bucket V T
      → (T → T × Place T U)
      → Run (Shard raw × MappedRefMut Bucket V U)
  unfolding value set_value inner
  map s r f = do
    t ← value s r
    s' ← set_value s r (f t).0
    ok (s', record { bucket = r.bucket; place = inner r.place (f t).1 })

  -- The left result is `Err(self)`; what `f` has written stays also then.
  unfoldable pub try_map :
      {U : Type 0}
      → Shard raw
      → MappedRefMut Bucket V T
      → (T → T × Option (Place T U))
      → Run (Shard raw × (MappedRefMut Bucket V T ⊎ MappedRefMut Bucket V U))
  unfolding value set_value inner
  try_map s r f = do
    t ← value s r
    s' ← set_value s r (f t).0
    elim (f t).1 [
      | none ↦ ok (s', inl r)
      | some place ↦ ok (s', inr (record { bucket = r.bucket; place = inner r.place place }))
    ]
