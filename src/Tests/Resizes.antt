-- ===== src/Tests/Resizes.antt =====
-- The theorems on resizing, cloning, and iterators with their guards at concrete inputs.
use mathlib.Core.Option
use neocache.Cache.{Cache, len, len_of, is_empty, shard_at}
use neocache.Cache.Copy.{clone}
use neocache.Cache.Copy.Effects.{clone-Becomes}
use neocache.Cache.Refine.{CacheBecomes}
use neocache.Cache.Resize.{try_reserve}
use neocache.Cache.Resize.Effects.{all_reserve, Reserved, try_reserve-Becomes}
use neocache.Cache.Valid.{value_at}
use neocache.Cache.Whole.Fresh.{last_of}
use neocache.Iter
use neocache.Iter.Every.{IsNext, next-IsNext}
use neocache.Iter.Exact.{collect-exact, is_empty_iff}
use neocache.Iter.Exact.Times.{times}
use neocache.Iter.Owning.{new, collect}
use neocache.Map
use neocache.Map.Read.{is_some}
use neocache.Map.Spec.{updated}
use neocache.MapRef.Multi.{mut_new, mut_pair, set_value}
use neocache.MapRef.Multi.Through.{Holds, multi_assign}
use neocache.Table.{weigh}
use neocache.Iter.Guards.{
  Action, take, drop_item, drop_iterator, lock, started, run, perform, next_loop, drop_guard,
  drop_current, dropped, strong_count,
}
use neocache.Iter.Guards.Drop.{IsHeld}
use neocache.Iter.Guards.Held.{run-IsHeld}
use neocache.Prelude.{
  ◌≤◌, length, List, [], ◌∷◌, zero, suc, ℕ, ◌+◌, ◌<◌, ◌≡◌, ◌↔◌, refl, true, none, some, to_nat,
  Returns, ok, ◌>>=◌, arith,
}
use neocache.Shard.{Item}
use neocache.Entry.{loc_small}
use neocache.Tests.Entries.{pair_cache, pair_cache-IsCacheValid}
use neocache.Tests.Samples.{mixed}
use neocache.Tests.Shards.{number_key, raw}

reserve_example :
    CacheBecomes raw 4
      (value_at raw pair_cache)
      (all_reserve raw 50 pair_cache.shards)
      (try_reserve raw pair_cache 50)
    × Reserved raw 50 pair_cache.shards (try_reserve raw pair_cache 50).0.shards
reserve_example = try_reserve-Becomes raw 4 pair_cache 50 pair_cache-IsCacheValid

next_example :
    Returns
      (Iter.next raw pair_cache (Iter.new raw))
      (λ r. IsNext raw pair_cache (Iter.new raw) r × (r.0.shard_i ≤ length pair_cache.shards))
next_example = next-IsNext raw pair_cache (Iter.new raw) (omega arith)

clone_example :
    CacheBecomes raw 4
      (λ j. Option.map (◌+◌ 0) (value_at raw pair_cache j))
      tt
      (clone raw (◌+◌ 0) pair_cache, tt {0})
clone_example = clone-Becomes raw (◌+◌ 0) 4 pair_cache pair_cache-IsCacheValid

is_empty_example : (is_empty raw pair_cache ≡ true) ↔ ((k : ℕ) → value_at raw pair_cache k ≡ none)
is_empty_example = is_empty_iff raw 4 pair_cache pair_cache-IsCacheValid

five_fuel : len raw pair_cache < 5
unfolding len len_of Map.len
five_fuel = omega arith

taken_example : Returns (collect raw 5 (new raw pair_cache)) (λ r.
    ((k : ℕ)
      → (last_of (λ j. none) r.1 k ≡ value_at raw pair_cache k)
        × (times raw k r.1 ≡ to_nat (is_some (value_at raw pair_cache k))))
    × (len raw r.0.map ≡ 0))
taken_example = collect-exact raw 4 pair_cache 5 pair_cache-IsCacheValid five_fuel

abbrev second_entry : Item ℕ ℕ
second_entry = (2, record { value = 20; freq = 1; loc = loc_small })

second_held : Holds raw pair_cache 0 1 second_entry
unfolding shard_at
second_held = (mixed, refl, refl)

multi_example :
    Returns {R = (ℕ × ℕ) × (Cache raw × (ℕ × ℕ))}
      (do
        was ← mut_pair raw pair_cache (mut_new raw 0 1)
        d ← set_value raw pair_cache (mut_new raw 0 1) 21
        now ← mut_pair raw d (mut_new raw 0 1)
        ok (was, (d, now)))
      (λ r.
        (value_at raw pair_cache 2 ≡ some r.0.1)
        × (r.0.0 ≡ 2)
        × CacheBecomes raw 4 (updated (value_at raw pair_cache) 2 (some 21)) (2, 21) r.1)
multi_example =
    multi_assign raw 4 pair_cache pair_cache-IsCacheValid 0 1 second_entry second_held 21

-- The buckets of a shard with two entries and of one with none.
abbrev two_or_none : ℕ → List ℕ
two_or_none zero = 0 ∷ 1 ∷ []
two_or_none (suc i) = []

abbrev all_taken : List Action
all_taken = take ∷ take ∷ take ∷ []

-- The first shard stays locked for its items when the iterator has gone on.
walked : (run 2 two_or_none started all_taken >>= λ w. ok w.trace) ≡ ok (lock 1 ∷ lock 0 ∷ [])
unfolding run perform next_loop drop_guard drop_current dropped strong_count weigh
walked = refl

abbrev some_dropped : List Action
some_dropped = take ∷ take ∷ take ∷ drop_item 0 ∷ drop_iterator ∷ drop_item 0 ∷ []

run-IsHeld_example : Returns (run 2 two_or_none started some_dropped) (IsHeld 2)
run-IsHeld_example = run-IsHeld 2 two_or_none some_dropped
