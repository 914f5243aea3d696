-- ===== src/Iter/Owning.antt =====
-- `OwningIter` of src/iter.rs: it owns the cache, and takes the raw table of one shard after the
-- other. `mem::take` leaves the default table, one of capacity 0.
pub mod Taken
use neocache.Cache.{Cache, shard_at, put_shard}
use neocache.Iter.{uncons}
use neocache.Prelude.{
  ℕ, zero, suc, ◌+◌, Option, none, some, List, [], ◌∷◌, length, eqb, if◌then◌else◌, Run, ok, fault,
  no_fuel, ◌>>=◌,
}
use neocache.Shard.{Item, hash_item}
use neocache.Table.{Key, RawTable}

pub record OwningIter (C E : Type 0) : Type 0 where
  pub map : C
  pub shard_i : ℕ
  pub current : Option (List E)

module _ {K V : Type 0} ⦃key : Key K⦄ (raw : RawTable (Item K V) hash_item) where
  open raw use {elements, with_capacity}

  abbrev pub Owning : Type 0
  Owning = OwningIter (Cache raw) (Item K V)

  abbrev pub new : Cache raw → Owning
  new c = record { map = c; shard_i = 0; current = none }

  -- The `loop` of `next`, on fuel.
  unfoldable pub next_loop : ℕ → Owning → Run (Owning × Option (K × V))
  unfolding shard_at put_shard
  next_loop zero it = fault no_fuel
  next_loop (suc fuel) it =
      let again = (do
        s ← shard_at it.map.shards it.shard_i
        let left = put_shard it.map.shards it.shard_i (record s { map = with_capacity 0 })
        next_loop fuel (record {
          map = record it.map { shards = left };
          shard_i = it.shard_i + 1;
          current = some (elements s.map);
        })) in
      elim (uncons it.current) [
        | some (e, es) ↦ ok (record it { current = some es }, some (e.0, e.1.value))
        | none ↦ if eqb it.shard_i (length it.map.shards) then ok (it, none) else again
      ]

  unfoldable pub next : Owning → Run (Owning × Option (K × V))
  unfolding next_loop
  next it = next_loop (suc (length it.map.shards)) it

  -- A `for` loop over the iterator, on fuel: all that it gives.
  unfoldable pub collect : ℕ → Owning → Run (Owning × List (K × V))
  unfolding next
  collect zero it = fault no_fuel
  collect (suc fuel) it = do
    (it', r) ← next it
    let rest = collect fuel it'
    elim r [ none ↦ ok (it', []) | some p ↦ do (it'', ps) ← rest; ok (it'', p ∷ ps) ]
