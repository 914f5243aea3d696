-- ===== src/Cache/Copy.antt =====
-- `Clone` of src/lib.rs, src/shard.rs and src/util.rs. A clone of a key is the key; what a clone of a
-- value is, `V: Clone` says.
pub mod Effects
use neocache.Cache.{Cache}
use neocache.Entry.{CacheEntry}
use neocache.Prelude.{◌≡◌, refl, List, [], ◌∷◌, map}
use neocache.Shard.{Item, hash_item, Shard}
use neocache.Table.{Key, RawTable}

module _ {K V : Type 0} ⦃key : Key K⦄ (raw : RawTable (Item K V) hash_item)
    (clone_value : V → V) where
  unfoldable pub clone_entry : CacheEntry V → CacheEntry V
  clone_entry e = record { value = clone_value e.value; freq = e.freq; loc = e.loc }

  abbrev pub clone_item : Item K V → Item K V
  clone_item e = (e.0, clone_entry e.1)

  pub same_hash : (e : Item K V) → hash_item (clone_item e) ≡ hash_item e
  same_hash e = refl

  -- `ShardData::clone`
  unfoldable pub clone_shard : Shard raw → Shard raw
  clone_shard s = record {
    map = raw.clone clone_item same_hash s.map;
    small_hashes = s.small_hashes;
    small_keys = s.small_keys;
    main_hashes = s.main_hashes;
    main_keys = s.main_keys;
    ghost_set = s.ghost_set;
    small_live = s.small_live;
    main_live = s.main_live;
    shard_cap = s.shard_cap;
    small_cap = s.small_cap;
    main_cap = s.main_cap;
    ghost_cap = s.ghost_cap;
  }

  -- `NeoCache::clone`
  unfoldable pub clone : Cache raw → Cache raw
  unfolding clone_shard
  clone c = record {
    shift = c.shift;
    shards = map clone_shard c.shards;
    cache_capacity = c.cache_capacity;
  }
