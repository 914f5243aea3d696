-- ===== src/Iter/Mutable.antt =====
-- `IterMut` of src/iter.rs. The guard that it holds is the index of the locked shard, and the raw
-- iterator is the buckets that it has still to give; an item, a `RefMutMulti`, is that index with
-- a bucket. Between two items the caller writes through the bucket.
pub mod Loop
use neocache.Cache.{Cache, shard_at, put_shard}
use neocache.Map.{map_in_place}
use neocache.Prelude.{
  ℕ, zero, suc, ◌+◌, Option, none, some, List, [], ◌∷◌, length, eqb, if◌then◌else◌, Run, ok, fault,
  no_fuel, ◌>>=◌,
}
use neocache.Shard.{Item, hash_item, Shard}
use neocache.Table.{Key, RawTable}

pub record IterMut (B : Type 0) : Type 0 where
  pub shard_i : ℕ
  pub current : Option (ℕ × List B)

-- `current.1.next()`, if there is a current one.
abbrev pub advance : {B : Type 0} → Option (ℕ × List B) → Option ((ℕ × B) × (ℕ × List B))
advance none = none
advance (some (i, [])) = none
advance (some (i, b ∷ bs)) = some ((i, b), (i, bs))

module _ {K V : Type 0} ⦃key : Key K⦄ (raw : RawTable (Item K V) hash_item) where
  open raw use {Bucket, iter}

  abbrev pub new : IterMut Bucket
  new = record { shard_i = 0; current = none }

  -- The `loop` of `next`, on fuel.
  unfoldable pub next_loop :
      ℕ → Cache raw → IterMut Bucket → Run (IterMut Bucket × Option (ℕ × Bucket))
  unfolding shard_at
  next_loop zero c it = fault no_fuel
  next_loop (suc fuel) c it =
      let again = (do
        s ← shard_at c.shards it.shard_i
        next_loop fuel c
            (record { shard_i = it.shard_i + 1; current = some (it.shard_i, iter s.map) })) in
      elim (advance it.current) [
        | some (item, rest) ↦ ok (record it { current = some rest }, some item)
        | none ↦ if eqb it.shard_i (length c.shards) then ok (it, none) else again
      ]

  unfoldable pub next : Cache raw → IterMut Bucket → Run (IterMut Bucket × Option (ℕ × Bucket))
  unfolding next_loop
  next c it = next_loop (suc (length c.shards)) c it

  -- `for_each` on the iterator, on fuel: `body` works on each item.
  unfoldable pub for_each :
      (Shard raw → Bucket → Run (Shard raw)) → ℕ → Cache raw → IterMut Bucket → Run (Cache raw)
  unfolding next shard_at put_shard
  for_each body zero c it = fault no_fuel
  for_each body (suc fuel) c it = do
    (it', r) ← next c it
    elim r [
      | none ↦ ok c
      | some (i, b) ↦ do
        s ← shard_at c.shards i
        s' ← body s b
        for_each body fuel (record c { shards = put_shard c.shards i s' }) it'
    ]

  -- The body of `_alter_all`: `iter_mut().for_each(|m| map_in_place_2(m.pair_mut(), f))`.
  unfoldable pub alter_all : ℕ → Cache raw → (K → V → V) → Run (Cache raw)
  unfolding for_each map_in_place
  alter_all fuel c f = for_each (λ s b. map_in_place raw s f b) fuel c new
