-- ===== src/Entry.antt =====
-- `CacheEntry` of src/util.rs with the constants of src/shard.rs: the value and the eviction
-- metadata that a table slot holds beside its key.
use neocache.Prelude.{ℕ, ◌+◌, Bool, true, false, ltb, if◌then◌else◌}

-- `loc`: 0 is the small queue and 1 the main queue.
pub data Loc : Type 0 where
  loc_small loc_main : Loc

abbrev pub is_small : Loc → Bool
is_small loc_small = true
is_small loc_main = false

abbrev pub max_freq : ℕ
max_freq = 3

pub record CacheEntry (V : Type 0) : Type 0 where
  pub value : V
  pub freq : ℕ
  pub loc : Loc

module _ {V : Type 0} where
  unfoldable pub new : V → Loc → CacheEntry V
  new value loc = record { value = value; freq = 0; loc = loc }

  -- `fetch_update`, whose closure gives `None` at the cap and then changes nothing.
  unfoldable pub bump_freq : CacheEntry V → CacheEntry V
  bump_freq e = record e { freq = if ltb e.freq max_freq then e.freq + 1 else e.freq }
