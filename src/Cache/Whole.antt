-- ===== src/Cache/Whole.antt =====
-- The operations of src/lib.rs on all shards, and its other constructors. `parallelism` is what
-- `available_parallelism` answers, on which the default count of shards rests.
pub mod Effects
pub mod Fresh
use neocache.Cache.{Cache, with_capacity_and_shard_amount, extend}
use neocache.Config.{default_shard_amount}
use neocache.Map
use neocache.Prelude.{
  ℕ, ◌+◌, Bool, false, Option, none, some, List, [], ◌∷◌, Run, ok, fault, panic, ◌>>=◌,
}
use neocache.Shard.{Item, hash_item, Shard}
use neocache.Table.{Key, RawTable}

module _ {K V : Type 0} ⦃key : Key K⦄ (raw : RawTable (Item K V) hash_item) where
  open raw use {capacity}

  -- A `for` loop over the shards.
  unfoldable pub each_shard :
      (Shard raw → Run (Shard raw)) → List (Shard raw) → Run (List (Shard raw))
  each_shard f [] = ok []
  each_shard f (s ∷ ss) = do s' ← f s; ss' ← each_shard f ss; ok (s' ∷ ss')

  unfoldable pub retain : Cache raw → (K → V → Bool × V) → Run (Cache raw)
  unfolding each_shard Map.retain
  retain c f = do ss ← each_shard (λ s. Map.retain raw s f) c.shards; ok (record c { shards = ss })

  -- `_clear` as src/t.rs provides it.
  unfoldable pub provided_clear : Cache raw → Run (Cache raw)
  unfolding retain
  provided_clear c = retain c (λ k v. (false, v))

  -- `iter_mut` opens one shard after the other.
  unfoldable pub alter_all : Cache raw → (K → V → V) → Run (Cache raw)
  unfolding each_shard Map.alter_all
  alter_all c f = do
    ss ← each_shard (λ s. Map.alter_all raw s f) c.shards
    ok (record c { shards = ss })

  -- The sum over the shards.
  unfoldable pub capacity_of : List (Shard raw) → ℕ
  capacity_of [] = 0
  capacity_of (s ∷ ss) = capacity s.map + capacity_of ss

  unfoldable pub total_capacity : Cache raw → ℕ
  unfolding capacity_of
  total_capacity c = capacity_of c.shards

  -- `none` is a failed assertion, as in the core constructor.
  unfoldable pub with_capacity : ℕ → ℕ → Option (Cache raw)
  unfolding with_capacity_and_shard_amount default_shard_amount
  with_capacity parallelism cache_capacity =
      with_capacity_and_shard_amount raw cache_capacity (default_shard_amount parallelism)

  unfoldable pub with_shard_amount : ℕ → ℕ → Option (Cache raw)
  unfolding with_capacity_and_shard_amount
  with_shard_amount cache_capacity shard_amount =
      with_capacity_and_shard_amount raw cache_capacity shard_amount

  unfoldable pub with_hasher : ℕ → Option (Cache raw)
  unfolding with_capacity
  with_hasher parallelism = with_capacity parallelism 0

  unfoldable pub with_hasher_and_shard_amount : ℕ → Option (Cache raw)
  unfolding with_capacity_and_shard_amount
  with_hasher_and_shard_amount shard_amount = with_capacity_and_shard_amount raw 0 shard_amount

  unfoldable pub new_unbounded : ℕ → Option (Cache raw)
  unfolding with_capacity
  new_unbounded parallelism = with_capacity parallelism 0

  -- `Default::default`
  unfoldable pub default : ℕ → Option (Cache raw)
  unfolding with_hasher
  default parallelism = with_hasher parallelism

  -- `FromIterator::from_iter`
  unfoldable pub from_iter : ℕ → List (K × V) → Run (Cache raw)
  unfolding default extend
  from_iter parallelism pairs = elim (default parallelism) [
    | none ↦ fault panic
    | some c ↦ extend raw c pairs
  ]
