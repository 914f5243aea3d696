-- ===== src/Tests/Witnesses.antt =====
-- The theorems at concrete shards.
use neocache.Map.{insert, remove}
use neocache.Map.Spec.{Becomes, updated}
use neocache.Map.Store.{Stored, insert-Stored}
use neocache.Map.Take.{remove-Becomes}
use neocache.Prelude.{Option, none, Returns, arith, ℕ}
use neocache.Shard.{evict_loop, evict_one, evict_from_main}
use neocache.Shard.Evict.{MainDone}
use neocache.Shard.Evict.Main.{evict_from_main_lem}
use neocache.Shard.Evict.Small.{Progress, evict_one_lem}
use neocache.Shard.Evict.Loop.{HasRoom, evict_loop_lem}
use neocache.Shard.Lookup.{lookup}
use neocache.Tests.Shards.{number_key, raw}
use neocache.Tests.Samples.{mixed, mixed-IsValid, mixed-IsWithin, main_only, main_only-CanEvictMain}
use mathlib.Core.Option

insert-Stored_example : Returns (insert raw mixed 9 90) (Stored raw mixed 9 90)
insert-Stored_example = insert-Stored raw mixed mixed-IsValid mixed-IsWithin 9 90

evict_loop_example : Returns (evict_loop raw 4 mixed) (HasRoom raw mixed)
evict_loop_example = evict_loop_lem raw 4 mixed mixed-IsValid mixed-IsWithin (omega arith)

evict_one_example : Returns (evict_one raw mixed) (Progress raw mixed)
evict_one_example =
    evict_one_lem raw mixed
      (record { valid = mixed-IsValid; enabled = omega arith; full = omega arith })

evict_from_main_example : Returns (evict_from_main raw main_only) (MainDone raw main_only)
evict_from_main_example = evict_from_main_lem raw main_only main_only-CanEvictMain

abbrev m : ℕ → Option ℕ
m = lookup raw mixed.map

remove_example :
    Returns
      (remove raw mixed 2)
      (Becomes raw mixed (updated m 2 none) (Option.map (λ x. (2, x)) (m 2)))
remove_example = remove-Becomes raw mixed mixed-IsValid mixed-IsWithin 2
