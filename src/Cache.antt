-- ===== src/Cache.antt =====
-- `NeoCache` of src/lib.rs: the shards, each behind its lock, with the operations of Map on the
-- shard that a key selects. An operation stands for what a thread does while it holds the lock.
pub mod At
pub mod Valid
pub mod Refine
pub mod Build
pub mod Keyed
pub mod Whole
pub mod History
pub mod Resize
pub mod Copy
use neocache.Config.{is_power_of_two, reduced_shard_amount, shift_of, shard_cap_of, determine_shard}
use neocache.Map
use neocache.Prelude.{
  ℕ, zero, suc, ◌+◌, Bool, true, ◌&&◌, Option, none, some, List, [], ◌∷◌, map, ltb, eqb,
  if◌then◌else◌, Run, ok, fault, dangling, ◌>>=◌,
}
use neocache.Shard
use neocache.Shard.{Item, hash_item, Shard}
use neocache.Table.{Key, RawTable}

abbrev pub replicate : {A : Type 0} → ℕ → A → List A
replicate zero x = []
replicate (suc n) x = x ∷ replicate n x

-- `get_unchecked`, whose contract is that the index is in bounds.
unfoldable pub shard_at : {A : Type 0} → List A → ℕ → Run A
shard_at [] i = fault dangling
shard_at (x ∷ xs) zero = ok x
shard_at (x ∷ xs) (suc i) = shard_at xs i

unfoldable pub put_shard : {A : Type 0} → List A → ℕ → A → List A
put_shard [] i y = []
put_shard (x ∷ xs) zero y = y ∷ xs
put_shard (x ∷ xs) (suc i) y = x ∷ put_shard xs i y

pub record NeoCache (S : Type 0) : Type 0 where
  pub shift : ℕ
  pub shards : List S
  pub cache_capacity : ℕ

module _ {K V : Type 0} ⦃key : Key K⦄ (raw : RawTable (Item K V) hash_item) where
  abbrev pub Cache : Type 0
  Cache = NeoCache (Shard raw)

  -- `none` is a failed assertion.
  unfoldable pub with_capacity_and_shard_amount : ℕ → ℕ → Option Cache
  unfolding Shard.new is_power_of_two reduced_shard_amount shift_of shard_cap_of
  with_capacity_and_shard_amount cache_capacity shard_amount =
      if ltb 1 shard_amount && is_power_of_two shard_amount
      then (let amount = reduced_shard_amount cache_capacity shard_amount in
          some (record {
            shift = shift_of amount;
            shards = replicate amount (Shard.new raw 0 (shard_cap_of cache_capacity amount));
            cache_capacity = cache_capacity;
          }))
      else none

  -- What each keyed operation does: hash, select, lock, work on the shard.
  unfoldable pub on_shard :
      {R : Type 0} → Cache → K → (Shard raw → Run (Shard raw × R)) → Run (Cache × R)
  unfolding determine_shard shard_at put_shard
  on_shard c k f = do
    let i = determine_shard c.shift (key.hash_one k)
    s ← shard_at c.shards i
    (s', r) ← f s
    ok (record c { shards = put_shard c.shards i s' }, r)

  unfoldable pub insert : Cache → K → V → Run (Cache × Option V)
  unfolding on_shard Map.insert
  insert c k value = on_shard c k (λ s. Map.insert raw s k value)

  unfoldable pub remove : Cache → K → Run (Cache × Option (K × V))
  unfolding on_shard Map.remove
  remove c k = on_shard c k (λ s. Map.remove raw s k)

  unfoldable pub contains_key : Cache → K → Run (Cache × Bool)
  unfolding on_shard Map.contains_key
  contains_key c k = on_shard c k (λ s. Map.contains_key raw s k)

  -- The sum over the shards.
  unfoldable pub len_of : List (Shard raw) → ℕ
  unfolding Map.len
  len_of [] = 0
  len_of (s ∷ ss) = Map.len raw s + len_of ss

  unfoldable pub len : Cache → ℕ
  unfolding len_of
  len c = len_of c.shards

  unfoldable pub is_empty : Cache → Bool
  unfolding len
  is_empty c = eqb (len c) 0

  unfoldable pub clear : Cache → Cache
  unfolding Map.clear_all
  clear c = record c { shards = map (Map.clear_all raw) c.shards }

  -- `for (k, v) in iter { self.insert(k, v); }`
  unfoldable pub extend : Cache → List (K × V) → Run Cache
  unfolding insert
  extend c [] = ok c
  extend c ((k, v) ∷ kvs) = do (c', _) ← insert c k v; extend c' kvs

  -- The operators `<<`, `-` and `&`.
  unfoldable pub shl : Cache → K × V → Run (Cache × Option V)
  unfolding insert
  shl c (k, v) = insert c k v

  unfoldable pub sub : Cache → K → Run (Cache × Option (K × V))
  unfolding remove
  sub c k = remove c k

  unfoldable pub bitand : Cache → K → Run (Cache × Bool)
  unfolding contains_key
  bitand c k = contains_key c k
