-- ===== src/Cache/Keyed.antt =====
-- The other operations of src/lib.rs that take a key. A guard, `Ref` or `RefMut`, is the bucket
-- that it points into.
pub mod Effects
use neocache.Cache.{Cache, on_shard}
use neocache.Map
use neocache.Prelude.{Bool, Option, none, some, Run, ok, fault, panic, ◌>>=◌}
use neocache.Shard.{Item, hash_item, Shard}
use neocache.Table.{Key, RawTable}
use neocache.TryResult.{TryResult}

module _ {K V : Type 0} ⦃key : Key K⦄ (raw : RawTable (Item K V) hash_item) where
  open raw use {Bucket}

  unfoldable pub get : Cache raw → K → Run (Cache raw × Option Bucket)
  unfolding on_shard Map.get
  get c k = on_shard raw c k (λ s. Map.get raw s k)

  unfoldable pub get_mut : Cache raw → K → Run (Cache raw × Option Bucket)
  unfolding on_shard Map.get_mut
  get_mut c k = on_shard raw c k (λ s. Map.get_mut raw s k)

  -- `acquired` says whether the lock of the key's shard was free.
  unfoldable pub try_get : Bool → Cache raw → K → Run (Cache raw × TryResult Bucket)
  unfolding on_shard Map.try_get
  try_get acquired c k = on_shard raw c k (λ s. Map.try_get raw acquired s k)

  unfoldable pub try_get_mut : Bool → Cache raw → K → Run (Cache raw × TryResult Bucket)
  unfolding on_shard Map.try_get_mut
  try_get_mut acquired c k = on_shard raw c k (λ s. Map.try_get_mut raw acquired s k)

  unfoldable pub remove_if : Cache raw → K → (K → V → Bool) → Run (Cache raw × Option (K × V))
  unfolding on_shard Map.remove_if
  remove_if c k f = on_shard raw c k (λ s. Map.remove_if raw s k f)

  unfoldable pub remove_if_mut :
      Cache raw → K → (K → V → Bool × V) → Run (Cache raw × Option (K × V))
  unfolding on_shard Map.remove_if_mut
  remove_if_mut c k f = on_shard raw c k (λ s. Map.remove_if_mut raw s k f)

  unfoldable pub view : {R : Type 0} → Cache raw → K → (K → V → R) → Run (Cache raw × Option R)
  unfolding on_shard Map.view
  view c k f = on_shard raw c k (λ s. Map.view raw s k f)

  unfoldable pub alter : Cache raw → K → (K → V → V) → Run (Cache raw × Unit {0})
  unfolding on_shard Map.alter
  alter c k f = on_shard raw c k (λ s. do s' ← Map.alter raw s k f; ok (s', tt))

  -- `Option::unwrap` on a guard
  unfoldable pub unwrapped : Cache raw × Option Bucket → Run (Cache raw × Bucket)
  unwrapped (c, none) = fault panic
  unwrapped (c, some b) = ok (c, b)

  -- The operators `>>` and `|`.
  unfoldable pub shr : Cache raw → K → Run (Cache raw × Bucket)
  unfolding get unwrapped
  shr c k = get c k >>= unwrapped

  unfoldable pub bitor : Cache raw → K → Run (Cache raw × Bucket)
  unfolding get_mut unwrapped
  bitor c k = get_mut c k >>= unwrapped
