-- ===== src/Shard/New.antt =====
-- The fresh shard, and the limits that it derives from its capacity.
use neocache.Prelude.{ℕ, ◌+◌, ◌*◌, ◌≤◌, ◌<◌, ◌≡◌, refl, zero, suc, arith, none, max}
use neocache.Shard.{Item, hash_item, small_cap_of, main_cap_of, new}
use neocache.Shard.Invariant.{is_key, in_small, in_main, one, over, IsValid, IsWithin}
use neocache.Shard.Lookup.{lookup, lookup-eq-none}
use neocache.Table.{Key, RawTable, weigh, weigh-nil}

-- At a capacity above zero the small queue gets a tenth of it, rounded up, and the two limits add
-- up to the capacity, except that a capacity of one gives each queue one entry.
pub caps_lem :
    (n : ℕ)
    → 0 < n
    → (1 ≤ small_cap_of n)
      × (small_cap_of n ≤ n)
      × (n ≤ 10 * small_cap_of n)
      × (10 * small_cap_of n < n + 10)
      × (small_cap_of n + main_cap_of n ≡ max n 2)
unfolding small_cap_of main_cap_of
caps_lem zero h = absurd (omega arith)
caps_lem (suc n) h = omega arith

module _ {K V : Type 0} ⦃key : Key K⦄ (raw : RawTable (Item K V) hash_item) where
  open raw use {elements, with_capacity, elements-with_capacity}

  -- At any capacity `ShardData::new` builds a well-formed shard within its capacity that holds no
  -- key.
  pub new-IsValid :
      (map_cap shard_cap : ℕ)
      → IsValid raw (new raw map_cap shard_cap)
        × IsWithin raw (new raw map_cap shard_cap)
        × ((k : K) → lookup raw (new raw map_cap shard_cap).map k ≡ none)
  unfolding new
  new-IsValid map_cap shard_cap =
      let empty : (w : Item K V → ℕ) → weigh w (elements (with_capacity map_cap)) ≡ 0 =
        λ w. rw (elements-with_capacity map_cap) (weigh-nil w) in
      (
        record {
          paired_small = refl;
          paired_main = refl;
          placed = record {
            unique = λ k. omega (arith, empty (is_key k));
            queued_small = λ k. omega (arith, empty (in_small k));
            queued_main = λ k. omega (arith, empty (in_main k));
            calm = empty over;
          };
          covered = omega (arith, empty one);
          slack_small = omega arith;
          slack_main = λ p. omega arith;
          caps = λ p. let c = caps_lem shard_cap p in (c.0, c.1);
          ghosts = (refl, omega arith);
        },
        (λ p. omega arith),
        (λ k. lookup-eq-none raw (with_capacity map_cap) k (empty (is_key k))),
      )
