-- ===== src/Tests/Histories.antt =====
-- The theorems on runs of calls at concrete calls.
use neocache.Cache.{Cache, with_capacity_and_shard_amount}
use neocache.Cache.History.{
  Call, insert, remove, get, contains_key, retain, alter_all, Follows, run,
}
use neocache.Cache.History.Follow.{run-Follows}
use neocache.Cache.History.Ideal.{ideal, ideal_answers, constructed-ideal, unbounded-ideal}
use neocache.Cache.Valid.{IsCacheValid, value_at}
use neocache.Prelude.{ℕ, ◌+◌, ◌≡◌, ◌⊎◌, refl, Bool, ltb, none, some, List, [], ◌∷◌, Returns, arith}
use neocache.Tests.Entries.{power, pair_cache, pair_cache-IsCacheValid}
use neocache.Tests.Shards.{number_key, raw}

abbrev kept_small : ℕ → ℕ → Bool × ℕ
kept_small k x = (ltb k x, x + 1)

abbrev some_calls : List (Call ℕ ℕ)
some_calls =
    insert 9 90
    ∷ get 2
    ∷ remove 3
    ∷ alter_all ◌+◌
    ∷ contains_key 3
    ∷ retain kept_small
    ∷ insert 3 33
    ∷ get 9
    ∷ []

run_example : Returns (run raw pair_cache some_calls) (λ r.
    IsCacheValid raw 4 r.0 × Follows 4 (value_at raw pair_cache) some_calls r.1 (value_at raw r.0))
run_example = run-Follows raw 4 pair_cache some_calls pair_cache-IsCacheValid

constructed_example :
    (c : Cache raw) × (with_capacity_and_shard_amount raw 20 16 ≡ some c)
    × Returns (run raw c some_calls) (λ r.
      (j : ℕ) → (value_at raw r.0 j ≡ ideal (λ k. none) some_calls j) ⊎ (value_at raw r.0 j ≡ none))
constructed_example = constructed-ideal raw 20 16 power (omega arith) (omega arith) some_calls

unbounded_example :
    (c : Cache raw) × (with_capacity_and_shard_amount raw 0 16 ≡ some c)
    × Returns (run raw c some_calls) (λ r.
      (r.1 ≡ ideal_answers (λ k. none) some_calls)
      × ((j : ℕ) → value_at raw r.0 j ≡ ideal (λ k. none) some_calls j))
unbounded_example = unbounded-ideal raw 0 16 power (omega arith) (omega arith) some_calls refl
