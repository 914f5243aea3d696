-- ===== src/Iter.antt =====
-- `Iter` of src/iter.rs: a walk over the shards. The guard and the raw iterator that an iterator
-- holds are the elements that it has still to give from its shard.
pub mod Every
pub mod Owning
pub mod Mutable
pub mod Exact
pub mod Guards
use neocache.Cache.{Cache, shard_at}
use neocache.Prelude.{
  ℕ, zero, suc, ◌+◌, Option, none, some, List, [], ◌∷◌, length, eqb, if◌then◌else◌, Run, ok, fault,
  no_fuel, ◌>>=◌,
}
use neocache.Shard.{Item, hash_item}
use neocache.Table.{Key, RawTable}

pub record Iter (E : Type 0) : Type 0 where
  pub shard_i : ℕ
  pub current : Option (List E)

-- `current.next()`, if there is a current one.
abbrev pub uncons : {E : Type 0} → Option (List E) → Option (E × List E)
uncons none = none
uncons (some []) = none
uncons (some (e ∷ es)) = some (e, es)

module _ {K V : Type 0} ⦃key : Key K⦄ (raw : RawTable (Item K V) hash_item) where
  open raw use {elements}

  abbrev pub new : Iter (Item K V)
  new = record { shard_i = 0; current = none }

  -- `Clone::clone` starts anew.
  abbrev pub clone : Iter (Item K V) → Iter (Item K V)
  clone it = new

  -- The `loop` of `next`, on fuel.
  unfoldable pub next_loop :
      ℕ → Cache raw → Iter (Item K V) → Run (Iter (Item K V) × Option (K × V))
  unfolding shard_at
  next_loop zero c it = fault no_fuel
  next_loop (suc fuel) c it =
      let again = (do
        s ← shard_at c.shards it.shard_i
        next_loop fuel c (record { shard_i = it.shard_i + 1; current = some (elements s.map) })) in
      elim (uncons it.current) [
        | some (e, es) ↦ ok (record it { current = some es }, some (e.0, e.1.value))
        | none ↦ if eqb it.shard_i (length c.shards) then ok (it, none) else again
      ]

  unfoldable pub next : Cache raw → Iter (Item K V) → Run (Iter (Item K V) × Option (K × V))
  unfolding next_loop
  next c it = next_loop (suc (length c.shards)) c it
