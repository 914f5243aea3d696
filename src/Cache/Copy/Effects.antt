-- ===== src/Cache/Copy/Effects.antt =====
-- A clone of a cache against the abstract map.
use mathlib.Core.Option
use neocache.Cache.{Cache}
use neocache.Cache.Copy.{clone_entry, clone_item, same_hash, clone_shard, clone}
use neocache.Cache.Refine.{CacheBecomes}
use neocache.Cache.Valid.{IsCacheValid, value_at}
use neocache.Cache.Whole.Effects.{each_shard-Each, Each-CacheBecomes, each-map}
use neocache.Map.Spec.{Becomes}
use neocache.Prelude.{
  ℕ, ◌≡◌, refl, sym, ◌∙◌, ap, inl, inr, some, Option-cases, List, [], ◌∷◌, map, arith, ok,
}
use neocache.Shard.{Item, hash_item, Shard}
use neocache.Shard.Invariant.{
  is_key, in_small, in_main, small_weight, main_weight, one, over, IsValid, IsWithin,
}
use neocache.Shard.Lookup.{lookup, lookup-Shows, Shows-lookup, lookup-eq-none}
use neocache.Shard.Lookup.Change.{weigh-none}
use neocache.Table.{Key, RawTable, weigh}

module _ {K V : Type 0} ⦃key : Key K⦄ (raw : RawTable (Item K V) hash_item)
    (clone_value : V → V) where
  open raw use {elements, contents, clone-elements, contents-clone}

  abbrev item : Item K V → Item K V
  item = clone_item raw clone_value

  weigh-map :
      (w : Item K V → ℕ) (es : List (Item K V))
      → ((e : Item K V) → w (item e) ≡ w e)
      → weigh w (map item es) ≡ weigh w es
  unfolding weigh
  weigh-map w [] same = refl
  weigh-map w (e ∷ es) same = omega (arith, same e, weigh-map w es same)

  module _ (s : Shard raw) (v : IsValid raw s) where
    abbrev copy : Shard raw
    copy = clone_shard raw clone_value s

    weighs :
        (w : Item K V → ℕ)
        → ((e : Item K V) → w (item e) ≡ w e)
        → weigh w (elements copy.map) ≡ weigh w (elements s.map)
    unfolding clone_shard
    weighs w same =
        ap (weigh w) (clone-elements item (same_hash raw clone_value) s.map)
        ∙ weigh-map w (elements s.map) same

    copy-IsValid : IsValid raw copy
    unfolding clone_shard clone_entry
    copy-IsValid = record {
      paired_small = v.paired_small;
      paired_main = v.paired_main;
      placed = record {
        unique = λ j. omega (arith, v.placed.unique j, weighs (is_key j) (λ e. refl));
        queued_small = λ j. omega (arith, v.placed.queued_small j, weighs (in_small j) (λ e. refl));
        queued_main = λ j. omega (arith, v.placed.queued_main j, weighs (in_main j) (λ e. refl));
        calm = omega (arith, v.placed.calm, weighs over (λ e. refl));
      };
      covered = omega (arith, v.covered, weighs one (λ e. refl));
      slack_small = omega (arith, v.slack_small, weighs small_weight (λ e. refl));
      slack_main = λ p. omega (arith, v.slack_main p, weighs main_weight (λ e. refl));
      caps = v.caps;
      ghosts = v.ghosts;
    }

    copy-lookup : (j : K) → lookup raw copy.map j ≡ Option.map clone_value (lookup raw s.map j)
    unfolding clone_shard clone_entry
    copy-lookup j = elim (Option-cases (lookup raw s.map j)) [
      | inl miss ↦
          let gone = weigh-none raw s.map j miss in
          lookup-eq-none raw copy.map j (omega (arith, gone, weighs (is_key j) (λ e. refl)))
          ∙ ap (Option.map clone_value) (sym miss)
      | inr (x, hit) ↦
          let (b, e, here, same, value) = Shows-lookup raw s.map j x hit in
          let there : contents copy.map b ≡ some (item e) =
            contents-clone item (same_hash raw clone_value) s.map b ∙ ap (Option.map item) here in
          lookup-Shows raw copy.map j (clone_value x) (copy-IsValid.placed.unique j)
            (b, item e, there, same, ap clone_value value)
          ∙ ap (Option.map clone_value) (sym hit)
    ]

    copy-Becomes :
        IsWithin raw s
        → Becomes raw s (λ j. Option.map clone_value (lookup raw s.map j)) tt (copy, tt {0})
    unfolding clone_shard
    copy-Becomes within = record {
      valid = copy-IsValid;
      within = within;
      cap = refl;
      returns = refl;
      map = copy-lookup;
    }

  -- The clone of a well-formed cache is well-formed. It holds the keys that the cache holds, each
  -- with the clone of its value.
  pub clone-Becomes :
      (cap : ℕ) (c : Cache raw)
      → IsCacheValid raw cap c
      → CacheBecomes raw cap
          (λ j. Option.map clone_value (value_at raw c j))
          tt
          (clone raw clone_value c, tt {0})
  unfolding clone
  clone-Becomes cap c v =
      let (ts, run, e) =
        each_shard-Each raw (λ j x. Option.map clone_value x)
          (λ s. ok (clone_shard raw clone_value s))
          (λ s valid within. (_, refl, copy-Becomes s valid within)) cap c.shards v.good in
      let same : ts ≡ map (clone_shard raw clone_value) c.shards =
        ground (arith, run, each-map raw (clone_shard raw clone_value) c.shards) in
      let p : CacheBecomes raw cap (λ j. Option.map clone_value (value_at raw c j)) tt
          (record c { shards = ts }, tt {0}) =
        Each-CacheBecomes raw cap (λ j x. Option.map clone_value x) c ts v (λ j. refl) e in
      let q : CacheBecomes raw cap (λ j. Option.map clone_value (value_at raw c j)) tt
          (record c { shards = map (clone_shard raw clone_value) c.shards }, tt {0}) =
        rw (← same) p in
      q
