-- ===== src/MapRef/Occupied.antt =====
-- `OccupiedEntry` of src/mapref/entry.rs.
use neocache.Entry
use neocache.Map.{release}
use neocache.Prelude.{Run, ok, ◌>>=◌}
use neocache.Shard.{Item, hash_item, Shard, as_ref}
use neocache.Table.{Key, RawTable}

pub record OccupiedEntry (B K : Type 0) : Type 0 where
  pub bucket : B
  pub own_key : K

module _ {K V : Type 0} ⦃key : Key K⦄ (raw : RawTable (Item K V) hash_item) where
  open raw use {Bucket, write, remove as remove_bucket}

  unfoldable pub get : Shard raw → OccupiedEntry Bucket K → Run V
  get s o = do e ← as_ref raw s.map o.bucket; ok e.1.value

  -- `mem::replace` through `get_mut`.
  unfoldable pub insert : Shard raw → OccupiedEntry Bucket K → V → Run (Shard raw × V)
  insert s o value = do
    e ← as_ref raw s.map o.bucket
    ok (record s { map = write s.map o.bucket (e.0, record e.1 { value = value }) }, e.1.value)

  unfoldable pub into_ref : Shard raw → OccupiedEntry Bucket K → Run Bucket
  into_ref s o = do _ ← as_ref raw s.map o.bucket; ok o.bucket

  unfoldable pub into_key : OccupiedEntry Bucket K → K
  into_key o = o.own_key

  -- The key of the stored pair.
  unfoldable pub stored_key : Shard raw → OccupiedEntry Bucket K → Run K
  stored_key s o = do e ← as_ref raw s.map o.bucket; ok e.0

  unfoldable pub remove : Shard raw → OccupiedEntry Bucket K → Run (Shard raw × V)
  unfolding release
  remove s o = do
    e ← as_ref raw s.map o.bucket
    ok (release (record s { map = remove_bucket s.map o.bucket }) e.1.loc, e.1.value)

  unfoldable pub remove_entry : Shard raw → OccupiedEntry Bucket K → Run (Shard raw × (K × V))
  unfolding release
  remove_entry s o = do
    e ← as_ref raw s.map o.bucket
    ok (release (record s { map = remove_bucket s.map o.bucket }) e.1.loc, (e.0, e.1.value))

  -- The new pair has the key of the entry, and keeps the queue and the frequency.
  unfoldable pub replace_entry : Shard raw → OccupiedEntry Bucket K → V → Run (Shard raw × (K × V))
  unfolding Entry.new
  replace_entry s o value = do
    e ← as_ref raw s.map o.bucket
    let new_entry = record (Entry.new value e.1.loc) { freq = e.1.freq }
    ok (record s { map = write s.map o.bucket (o.own_key, new_entry) }, (e.0, e.1.value))
