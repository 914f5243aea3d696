-- ===== src/MapRef/Vacant.antt =====
-- `VacantEntry` of src/mapref/entry.rs.
use neocache.Map.{insert_new}
use neocache.MapRef.Occupied.{OccupiedEntry}
use neocache.Prelude.{ℕ, Run, ok, ◌>>=◌}
use neocache.Shard.{Item, hash_item, Shard}
use neocache.Table.{Key, RawTable}

pub record VacantEntry (S K : Type 0) : Type 0 where
  pub own_key : K
  pub hash : ℕ
  pub slot : S

module _ {K V : Type 0} ⦃key : Key K⦄ (raw : RawTable (Item K V) hash_item) where
  open raw use {Bucket, InsertSlot}

  unfoldable pub insert : Shard raw → VacantEntry InsertSlot K → V → Run (Shard raw × Bucket)
  unfolding insert_new
  insert s w value = insert_new raw s w.hash w.own_key w.slot value

  unfoldable pub insert_entry :
      Shard raw → VacantEntry InsertSlot K → V → Run (Shard raw × OccupiedEntry Bucket K)
  unfolding insert_new
  insert_entry s w value = do
    (s', b) ← insert_new raw s w.hash w.own_key w.slot value
    ok (s', record { bucket = b; own_key = w.own_key })

  unfoldable pub into_key : VacantEntry InsertSlot K → K
  into_key w = w.own_key
