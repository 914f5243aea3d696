-- ===== src/MapRef/Api.antt =====
-- `Entry` of src/mapref/entry.rs, and `_entry` and `_try_entry` of src/lib.rs that make one.
use neocache.MapRef.Occupied
use neocache.MapRef.Occupied.{OccupiedEntry}
use neocache.MapRef.Vacant
use neocache.MapRef.Vacant.{VacantEntry}
use neocache.Prelude.{Bool, true, false, Option, none, some, ◌⊎◌, inl, inr, Run, ok, ◌>>=◌}
use neocache.Shard.{Item, hash_item, Shard, has_key, as_ref}
use neocache.Table.{Key, RawTable, occupied, vacant}

pub data Entry (B S K : Type 0) : Type 0 where
  occupied_entry : OccupiedEntry B K → Entry B S K
  vacant_entry : VacantEntry S K → Entry B S K

module _ {K V : Type 0} ⦃key : Key K⦄ (raw : RawTable (Item K V) hash_item) where
  open raw use {Bucket, InsertSlot, find_or_find_insert_slot, write}

  -- `Entry<'a, K, V>`
  abbrev pub View : Type 0
  View = Entry Bucket InsertSlot K

  unfoldable pub entry : Shard raw → K → Shard raw × View
  entry s k =
      let hash = key.hash_one k in
      let (t, probe) = find_or_find_insert_slot s.map hash (has_key raw k) in
      (
        record s { map = t },
        elim probe [
          | occupied b ↦ occupied_entry (record { bucket = b; own_key = k })
          | vacant slot ↦ vacant_entry (record { own_key = k; hash = hash; slot = slot })
        ],
      )

  -- `acquired` says whether the lock was free; behind it stands the body of `entry`.
  unfoldable pub try_entry : Bool → Shard raw → K → Shard raw × Option View
  unfolding entry
  try_entry false s k = (s, none)
  try_entry true s k = let (s', view) = entry s k in (s', some view)

  unfoldable pub into_key : View → K
  unfolding Occupied.into_key Vacant.into_key
  into_key (occupied_entry o) = Occupied.into_key raw o
  into_key (vacant_entry w) = Vacant.into_key raw w

  unfoldable pub and_modify : Shard raw → View → (V → V) → Run (Shard raw × View)
  and_modify s (occupied_entry o) f = do
    e ← as_ref raw s.map o.bucket
    ok (
      record s { map = write s.map o.bucket (e.0, record e.1 { value = f e.1.value }) },
      occupied_entry o,
    )
  and_modify s (vacant_entry w) f = ok (s, vacant_entry w)

  -- `or_default` for the given `V::default()`.
  unfoldable pub or_default : V → Shard raw → View → Run (Shard raw × Bucket)
  unfolding Occupied.into_ref Vacant.insert
  or_default default s (occupied_entry o) = do b ← Occupied.into_ref raw s o; ok (s, b)
  or_default default s (vacant_entry w) = Vacant.insert raw s w default

  unfoldable pub or_insert : Shard raw → View → V → Run (Shard raw × Bucket)
  unfolding Occupied.into_ref Vacant.insert
  or_insert s (occupied_entry o) value = do b ← Occupied.into_ref raw s o; ok (s, b)
  or_insert s (vacant_entry w) value = Vacant.insert raw s w value

  unfoldable pub or_insert_with : Shard raw → View → (Unit {0} → V) → Run (Shard raw × Bucket)
  unfolding Occupied.into_ref Vacant.insert
  or_insert_with s (occupied_entry o) value = do b ← Occupied.into_ref raw s o; ok (s, b)
  or_insert_with s (vacant_entry w) value = Vacant.insert raw s w (value tt)

  unfoldable pub or_try_insert_with :
      {E : Type 0} → Shard raw → View → (Unit {0} → E ⊎ V) → Run (Shard raw × (E ⊎ Bucket))
  unfolding Occupied.into_ref Vacant.insert
  or_try_insert_with s (occupied_entry o) value = do b ← Occupied.into_ref raw s o; ok (s, inr b)
  or_try_insert_with s (vacant_entry w) value = elim (value tt) [
    | inl e ↦ ok (s, inl e)
    | inr v ↦ do (s', b) ← Vacant.insert raw s w v; ok (s', inr b)
  ]

  unfoldable pub insert : Shard raw → View → V → Run (Shard raw × Bucket)
  unfolding Occupied.insert Occupied.into_ref Vacant.insert
  insert s (occupied_entry o) value = do
    (s', _) ← Occupied.insert raw s o value
    b ← Occupied.into_ref raw s' o
    ok (s', b)
  insert s (vacant_entry w) value = Vacant.insert raw s w value

  unfoldable pub insert_entry : Shard raw → View → V → Run (Shard raw × OccupiedEntry Bucket K)
  unfolding Occupied.insert Vacant.insert_entry
  insert_entry s (occupied_entry o) value = do (s', _) ← Occupied.insert raw s o value; ok (s', o)
  insert_entry s (vacant_entry w) value = Vacant.insert_entry raw s w value
