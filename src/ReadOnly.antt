-- ===== src/ReadOnly.antt =====
-- `ReadOnlyView` of src/read_only.rs: lookups without a lock, on a cache that nothing writes to.
use mathlib.Core.Option
use neocache.Cache.{Cache, shard_at}
use neocache.Cache.At.{shard_at-lt}
use neocache.Cache.Valid.{IsCacheValid, index, value_at, value_at-ok}
use neocache.Config.{determine_shard}
use neocache.Prelude.{
  ◌≡◌, Bool, true, false, inl, inr, Option, none, some, arith, ok, ◌>>=◌, Run, Option-cases, List,
  [], ◌∷◌, ◌++◌, map, ℕ,
}
use neocache.Shard.{Item, hash_item, Shard, has_key, as_ref}
use neocache.Shard.Lookup.{lookup}
use neocache.Shard.Lookup.Change.{found_lem, missed_lem}
use neocache.Table.{Key, RawTable}

module _ {K V : Type 0} ⦃key : Key K⦄ (raw : RawTable (Item K V) hash_item) where
  open raw use {find, elements}

  -- The lookup on the shard that the key selects.
  unfoldable pub find_pair : Shard raw → K → Run (Option (K × V))
  find_pair s k = elim (find s.map (key.hash_one k) (has_key raw k)) [
    | none ↦ ok none
    | some b ↦ do e ← as_ref raw s.map b; ok (some (e.0, e.1.value))
  ]

  unfoldable pub get_key_value : Cache raw → K → Run (Option (K × V))
  unfolding find_pair determine_shard shard_at
  get_key_value c k = do
    s ← shard_at c.shards (determine_shard c.shift (key.hash_one k))
    find_pair s k

  unfoldable pub get : Cache raw → K → Run (Option V)
  unfolding get_key_value
  get c k = do r ← get_key_value c k; ok (Option.map (λ p. p.1) r)

  unfoldable pub contains_key : Cache raw → K → Run Bool
  unfolding get
  contains_key c k = do r ← get c k; ok (elim r [ none ↦ false | some _ ↦ true ])

  -- The pairs of all shards in turn.
  unfoldable pub pairs : List (Shard raw) → List (K × V)
  pairs [] = []
  pairs (s ∷ ss) = map (λ e. (e.0, e.1.value)) (elements s.map) ++ pairs ss

  unfoldable pub iter : Cache raw → List (K × V)
  unfolding pairs
  iter c = pairs c.shards

  unfoldable pub keys : Cache raw → List K
  unfolding iter
  keys c = map (λ p. p.0) (iter c)

  unfoldable pub values : Cache raw → List V
  unfolding iter
  values c = map (λ p. p.1) (iter c)

  find_pair_lem :
      (s : Shard raw) (k : K) → find_pair s k ≡ ok (Option.map (λ x. (k, x)) (lookup raw s.map k))
  unfolding find_pair
  find_pair_lem s k = elim (Option-cases (find s.map (key.hash_one k) (has_key raw k))) [
    | inl miss ↦ ground (arith, miss, missed_lem raw s.map k miss)
    | inr (b, hit) ↦
        let (e, here, same, value) = found_lem raw s.map k b hit in
        ground (arith, hit, here, same, value)
  ]

  -- On a well-formed cache the lookup of a read-only view gives the key with the value that the
  -- abstract map has at it, and none if it has no value.
  pub get_key_value-eq :
      (cap : ℕ) (c : Cache raw) (k : K)
      → IsCacheValid raw cap c
      → get_key_value c k ≡ ok (Option.map (λ x. (k, x)) (value_at raw c k))
  unfolding get_key_value
  get_key_value-eq cap c k v =
      let (s, here) = shard_at-lt c.shards (index raw c k) (v.selects (key.hash_one k)) in
      let same : value_at raw c k ≡ lookup raw s.map k = value_at-ok raw c k s here in
      rw (here, same) (find_pair_lem s k)
