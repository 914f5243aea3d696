-- ===== src/Iter/Guards.antt =====
-- The guards that the iterators of src/iter.rs share with their items, the guards of
-- src/mapref/multiple.rs: an `Arc` of the lock guard of a shard, which unlocks the shard when its
-- last reference is dropped. `Iter` and `IterMut` share in the same way.
pub mod Drop
pub mod Moves
pub mod Held
use neocache.Iter.Mutable.{IterMut, advance}
use neocache.Prelude.{
  ℕ, zero, suc, ◌+◌, Bool, false, to_nat, eqb, if◌then◌else◌, Option, none, some, List, [], ◌∷◌,
  Run, ok, fault, no_fuel, ◌>>=◌,
}
use neocache.Table.{weigh}

-- What an iterator does to the lock of a shard.
pub data Event : Type 0 where
  lock : ℕ → Event
  unlock : ℕ → Event

-- An iterator, the shards of its items that are not dropped yet, and the events, the last one
-- first.
pub record Walk (B : Type 0) : Type 0 where
  pub iterator : IterMut B
  pub items : List ℕ
  pub trace : List Event

-- What the client does: take the next item, drop an item of a shard, or drop the iterator.
pub data Action : Type 0 where
  take : Action
  drop_item : ℕ → Action
  drop_iterator : Action

abbrev pub is_current : {B : Type 0} → ℕ → Option (ℕ × List B) → Bool
is_current i none = false
is_current i (some (j, bs)) = eqb i j

abbrev pub alive : ℕ → List ℕ → ℕ
alive i = weigh (λ j. to_nat (eqb i j))

abbrev pub without : ℕ → List ℕ → List ℕ
without i [] = []
without i (j ∷ js) = let rest = without i js in if eqb i j then js else j ∷ rest

module _ {B : Type 0} where
  -- The strong count of the `Arc` of a shard.
  unfoldable pub strong_count : ℕ → Walk B → ℕ
  unfolding weigh
  strong_count i w = to_nat (is_current i w.iterator.current) + alive i w.items

  -- After a reference to the guard of a shard is dropped.
  unfoldable pub dropped : ℕ → Walk B → Walk B
  unfolding strong_count
  dropped i w = if eqb (strong_count i w) 0 then record w { trace = unlock i ∷ w.trace } else w

  -- The drop of what `current` holds.
  unfoldable pub drop_guard : Option (ℕ × List B) → Walk B → Walk B
  unfolding dropped
  drop_guard none w = w
  drop_guard (some (i, bs)) w = dropped i w

  unfoldable pub drop_current : Walk B → Walk B
  unfolding drop_guard
  drop_current w =
      drop_guard w.iterator.current (record w { iterator = record w.iterator { current = none } })

  -- The `loop` of `next`, on fuel: a new shard is locked and its guard replaces the old one, which
  -- is dropped.
  unfoldable pub next_loop : ℕ → ℕ → (ℕ → List B) → Walk B → Run (Walk B × Option (ℕ × B))
  unfolding drop_guard
  next_loop zero count buckets w = fault no_fuel
  next_loop (suc fuel) count buckets w =
      let i = w.iterator.shard_i in
      let again = next_loop fuel count buckets (
        drop_guard w.iterator.current (record w {
          iterator = record { shard_i = i + 1; current = some (i, buckets i) };
          trace = lock i ∷ w.trace;
        })) in
      elim (advance w.iterator.current) [
        | some (item, rest) ↦ ok (
          record w {
            iterator = record w.iterator { current = some rest };
            items = item.0 ∷ w.items;
          },
          some item,
        )
        | none ↦ if eqb i count then ok (w, none) else again
      ]

  unfoldable pub perform : ℕ → (ℕ → List B) → Walk B → Action → Run (Walk B)
  unfolding next_loop drop_current dropped
  perform count buckets w take = do (v, _) ← next_loop (suc count) count buckets w; ok v
  perform count buckets w (drop_item i) =
      if eqb (alive i w.items) 0
      then ok w
      else ok (dropped i (record w { items = without i w.items }))
  perform count buckets w drop_iterator = ok (drop_current w)

  unfoldable pub run : ℕ → (ℕ → List B) → Walk B → List Action → Run (Walk B)
  unfolding perform
  run count buckets w [] = ok w
  run count buckets w (a ∷ actions) = do v ← perform count buckets w a; run count buckets v actions

  abbrev pub started : Walk B
  started = record { iterator = record { shard_i = 0; current = none }; items = []; trace = [] }
