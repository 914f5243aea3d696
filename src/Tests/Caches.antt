-- ===== src/Tests/Caches.antt =====
-- The theorems on a whole cache at concrete inputs.
use neocache.Cache.Keyed.{get, shr}
use neocache.Cache.Keyed.Effects.{CacheLooked, Unwrapped, cache_get-CacheLooked, shr-Unwrapped}
use neocache.Cache.Refine.{CacheBecomes}
use neocache.Cache.Valid.{IsCacheValid, value_at}
use neocache.Cache.Whole.{from_iter}
use neocache.Cache.Whole.Fresh.{last_of, from_iter-last_of}
use neocache.Iter.Mutable.{alter_all}
use neocache.Iter.Mutable.Loop.{buckets, iter_mut-Becomes}
use neocache.Map.Each.{effect}
use neocache.Prelude.{ℕ, ◌+◌, ◌<◌, ◌≡◌, none, some, Bool, ◌∷◌, [], ltb, Returns, arith}
use neocache.Tests.Entries.{pair_cache, pair_cache-IsCacheValid}
use neocache.Tests.Shards.{number_key, raw}

abbrev stepped : ℕ → ℕ → Bool × ℕ
stepped k x = (ltb k x, x + 1)

cache_get_example : Returns (get raw pair_cache 2) (CacheLooked raw 4 pair_cache 2)
cache_get_example = cache_get-CacheLooked raw 4 pair_cache pair_cache-IsCacheValid 2

shr_example :
    Unwrapped raw 4 pair_cache pair_cache-IsCacheValid 2
      (value_at raw pair_cache 2)
      (shr raw pair_cache 2)
shr_example = shr-Unwrapped raw 4 pair_cache pair_cache-IsCacheValid 2

from_iter_example : Returns (from_iter raw 4 ((1, 10) ∷ (2, 20) ∷ (1, 30) ∷ [])) (λ d.
    IsCacheValid raw 0 d
    × ((j : ℕ) → value_at raw d j ≡ last_of (λ i. none) ((1, 10) ∷ (2, 20) ∷ (1, 30) ∷ []) j))
from_iter_example =
    from_iter-last_of raw 4 ((1, 10) ∷ (2, 20) ∷ (1, 30) ∷ []) (omega arith) (omega arith)

few_buckets : buckets raw pair_cache.shards < 20
few_buckets = omega arith

iter_mut_example : Returns (alter_all raw 20 pair_cache ◌+◌) (λ d.
    CacheBecomes raw 4
      (λ j. effect (λ i x. some (i + x)) j (value_at raw pair_cache j))
      tt
      (d, tt {0}))
iter_mut_example = iter_mut-Becomes raw 4 pair_cache ◌+◌ 20 pair_cache-IsCacheValid few_buckets
