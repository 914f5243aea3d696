-- ===== src/Tests/Entries.antt =====
-- The theorems on entries and on the whole cache at concrete inputs.
use mathlib.Core.Option
use neocache.Cache.{Cache, shard_at, with_capacity_and_shard_amount, insert, len, extend}
use neocache.Cache.Build.{constructor-IsCacheValid, extend-bounded}
use neocache.Cache.Refine.{CacheStored, cache_insert-Stored}
use neocache.Cache.Valid.{IsCacheValid, index, value_at}
use neocache.Config.{
  exponent_from, next_power_of_two, is_power_of_two, reduced_shard_amount, shift_of, shard_cap_of,
  determine_shard, ncb, zeros_from,
}
use neocache.Config.Bounds.{determine_shard-lt}
use neocache.Iter.{Iter}
use neocache.ReadOnly.{get_key_value, get_key_value-eq}
use neocache.Shard.{Item, Shard}
use neocache.Map.Spec.{Becomes, updated}
use neocache.MapRef.Api
use neocache.MapRef.Api.{View, entry}
use neocache.MapRef.Enter.{Entered, entry-Entered}
use neocache.MapRef.Fill.{
  value_or, Held, Tried, or_insert-Held, insert-Held, or_try_insert_with-Tried,
}
use neocache.MapRef.Occupied.{OccupiedEntry, remove_entry, replace_entry}
use neocache.MapRef.Replace.{
  Replaced, modified, remove_entry-Becomes, replace_entry-Replaced, and_modify-Becomes,
}
use neocache.Prelude.{
  ℕ, ◌+◌, ◌<◌, ◌≡◌, refl, none, some, ◌⊎◌, inl, inr, true, ◌||◌, ◌≢◌, sym, eqb, zero, suc, ◌∷◌, [],
  length, ok, Returns, arith,
}
use neocache.Shard.Lookup.{lookup, lookup-eq-none}
use neocache.Shard.Invariant.{is_key}
use neocache.Table.{weigh}
use neocache.Tests.Samples.{
  mixed, mixed-IsValid, mixed-IsWithin, spare, spare-IsValid, spare-IsWithin,
}
use neocache.Tests.Shards.{number_key, raw}

entry_example : Entered raw mixed 2 (entry raw mixed 2)
entry_example = entry-Entered raw mixed mixed-IsValid mixed-IsWithin 2

or_insert_example :
    Returns
      (Api.or_insert raw (entry raw mixed 9).0 (entry raw mixed 9).1 90)
      (Held raw mixed 9 (value_or 90 (lookup raw mixed.map 9)))
or_insert_example = or_insert-Held raw mixed mixed-IsValid mixed-IsWithin 9 90

insert-Held_example :
    Returns (Api.insert raw (entry raw mixed 2).0 (entry raw mixed 2).1 90) (Held raw mixed 2 90)
insert-Held_example = insert-Held raw mixed mixed-IsValid mixed-IsWithin 2 90

abbrev refused : ℕ ⊎ ℕ
refused = inl 7

or_try_insert_with_example :
    Returns
      (Api.or_try_insert_with raw (entry raw mixed 9).0 (entry raw mixed 9).1 (λ _. refused))
      (Tried raw mixed 9 refused)
or_try_insert_with_example =
    or_try_insert_with-Tried raw mixed mixed-IsValid mixed-IsWithin 9 refused

abbrev second : OccupiedEntry ℕ ℕ
second = record { bucket = 1; own_key = 2 }

remove_entry_example :
    Returns
      (remove_entry raw mixed second)
      (Becomes raw {R = ℕ × ℕ} mixed (updated (lookup raw mixed.map) 2 none) (2, 20))
remove_entry_example =
    remove_entry-Becomes raw mixed mixed-IsValid mixed-IsWithin second _ refl refl

replace_entry_example :
    Returns
      (replace_entry raw mixed second 21)
      (Replaced raw mixed mixed-IsValid mixed-IsWithin second _ refl refl 21)
replace_entry_example =
    replace_entry-Replaced raw mixed mixed-IsValid mixed-IsWithin second _ refl refl 21

and_modify_example :
    Returns (Api.and_modify raw (entry raw mixed 2).0 (entry raw mixed 2).1 (◌+◌ 1)) (λ r.
      Becomes raw mixed
        (updated (lookup raw mixed.map) 2 (modified raw (◌+◌ 1) (lookup raw mixed.map 2)))
        (entry raw mixed 2).1
        (r.0, r.1))
and_modify_example = and_modify-Becomes raw mixed 2 (◌+◌ 1) mixed-IsValid mixed-IsWithin

two_is_power : is_power_of_two 2 ≡ true
unfolding is_power_of_two next_power_of_two exponent_from
two_is_power = refl

pub power : is_power_of_two 16 ≡ true
unfolding is_power_of_two next_power_of_two exponent_from
power = refl

-- The reduced count leaves three entries for each shard here.
three_each : shard_cap_of 20 (reduced_shard_amount 20 16) ≡ 3
unfolding shard_cap_of reduced_shard_amount next_power_of_two exponent_from
three_each = refl

constructor_example :
    (c : Cache raw) × (with_capacity_and_shard_amount raw 20 16 ≡ some c)
    × IsCacheValid raw (shard_cap_of 20 (reduced_shard_amount 20 16)) c
    × (length c.shards ≡ reduced_shard_amount 20 16)
    × ((k : ℕ) → value_at raw c k ≡ none)
constructor_example = constructor-IsCacheValid raw 20 16 power (omega arith) (omega arith)

extend_example :
    (c d : Cache raw) × (with_capacity_and_shard_amount raw 20 16 ≡ some c)
    × (extend raw c ((1, 10) ∷ (2, 20) ∷ []) ≡ ok d)
    × (len raw d < 20 + 16)
extend_example =
    extend-bounded raw 20 16 power (omega arith) (omega arith) ((1, 10) ∷ (2, 20) ∷ [])
      (omega arith)

-- A full shard and an empty one.
abbrev pub pair_cache : Cache raw
pair_cache = record { shift = shift_of 2; shards = mixed ∷ spare ∷ []; cache_capacity = 8 }

-- The keys of the first shard select it.
first_home : (j : ℕ) → eqb j 1 || eqb j 2 || eqb j 3 || eqb j 4 ≡ true → index raw pair_cache j ≡ 0
unfolding determine_shard shift_of ncb zeros_from
first_home j h =
    let four : (j ≡ 1) ⊎ (j ≡ 2) ⊎ (j ≡ 3) ⊎ (j ≡ 4) = ground arith in
    elim four [
      | inl p ↦ rw p refl
      | inr (inl p) ↦ rw p refl
      | inr (inr (inl p)) ↦ rw p refl
      | inr (inr (inr p)) ↦ rw p refl
    ]

mixed-away : (j : ℕ) → 0 ≢ index raw pair_cache j → weigh (is_key j) (raw.elements mixed.map) ≡ 0
unfolding weigh
mixed-away j away =
    let none_of : eqb j 1 || eqb j 2 || eqb j 3 || eqb j 4 ≢ true =
      λ h. away (sym (first_home j h)) in
    ground (arith, none_of)

pair_cache-home :
    (i : ℕ) (s : Shard raw) (j : ℕ)
    → shard_at pair_cache.shards i ≡ ok s
    → i ≢ index raw pair_cache j
    → lookup raw s.map j ≡ none
unfolding shard_at weigh
pair_cache-home zero s j here away =
    let is : mixed ≡ s = ground (arith, here) in
    rw (← is) (lookup-eq-none raw mixed.map j (mixed-away j away))
pair_cache-home (suc zero) s j here away =
    let is : spare ≡ s = ground (arith, here) in rw (← is) (lookup-eq-none raw spare.map j refl)
pair_cache-home (suc (suc i)) s j here away = absurd (ground (arith, here))

pub pair_cache-IsCacheValid : IsCacheValid raw 4 pair_cache
pair_cache-IsCacheValid = record {
  good = ((mixed-IsValid, mixed-IsWithin, refl), ((spare-IsValid, spare-IsWithin, refl), tt));
  selects = λ hash. determine_shard-lt 2 hash two_is_power (omega arith);
  home = pair_cache-home;
}

cache_insert_example : Returns (insert raw pair_cache 9 90) (CacheStored raw 4 pair_cache 9 90)
cache_insert_example = cache_insert-Stored raw 4 pair_cache pair_cache-IsCacheValid 9 90

get_key_value_example :
    get_key_value raw pair_cache 3 ≡ ok (Option.map (λ x. (3, x)) (value_at raw pair_cache 3))
get_key_value_example = get_key_value-eq raw 4 pair_cache 3 pair_cache-IsCacheValid

abbrev started : Iter (Item ℕ ℕ)
started = record { shard_i = 1; current = some [] }
