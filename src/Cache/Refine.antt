-- ===== src/Cache/Refine.antt =====
-- The keyed operations of the whole cache against its abstract map.
use mathlib.Core.Option
use neocache.Cache.{on_shard, Cache, insert, remove, len_of, len, extend}
use neocache.Cache.Valid.{IsCacheValid, IsGood, AddsOnly, index, value_at, Worked, on_shard-Worked}
use neocache.Map
use neocache.Map.Spec.{Becomes, updated, updated_ne}
use neocache.Map.Store.{Stored, insert-Stored}
use neocache.Map.Take.{remove-Becomes}
use neocache.Prelude.{
  ℕ, ◌*◌, ◌≤◌, ◌<◌, ◌≡◌, ◌≢◌, refl, sym, ◌∙◌, ap, ◌⊎◌, inl, inr, Option, none, some, List, [], ◌∷◌,
  length, All, arith, Returns, Run,
}
use neocache.Shard.{Item, hash_item, Shard}
use neocache.Shard.Invariant.{one, IsValid, IsWithin}
use neocache.Shard.Lookup.{lookup}
use neocache.Table.{Key, RawTable, weigh}
use native.Mathlib.Decide.{ℕ_discrete}

module _ {K V : Type 0} ⦃key : Key K⦄ (raw : RawTable (Item K V) hash_item) where
  -- The cache has stored `v` at `k`: the answer is the old value, and at most one other key, the
  -- victim, is evicted; there is none but for a new key and with eviction enabled.
  pub record CacheStored (cap : ℕ) (c : Cache raw) (k : K) (v : V) (r : Cache raw × Option V)
      : Type 0 where
    pub valid : IsCacheValid raw cap r.0
    pub count : length r.0.shards ≡ length c.shards
    pub returns : r.1 ≡ value_at raw c k
    pub stored : value_at raw r.0 k ≡ some v
    pub others :
        (j : K) → j ≢ k → (value_at raw r.0 j ≡ value_at raw c j) ⊎ (value_at raw r.0 j ≡ none)
    pub victim : Option K
    pub full : (j : K) → victim ≡ some j → (value_at raw c k ≡ none) × (0 < cap)
    pub spares : (j : K) → j ≢ k → victim ≢ some j → value_at raw r.0 j ≡ value_at raw c j

  -- The abstract map of the cache becomes `m`, with the answer `answer`.
  pub record CacheBecomes {R : Type 0} (cap : ℕ) (m : K → Option V) (answer : R) (r : Cache raw × R)
      : Type 0 where
    pub valid : IsCacheValid raw cap r.0
    pub returns : r.1 ≡ answer
    pub map : (j : K) → value_at raw r.0 j ≡ m j

  module _ (cap : ℕ) (c : Cache raw) (v : IsCacheValid raw cap c) (k : K) where
    Stored-AddsOnly :
        (s : Shard raw) (value : V) (r : Shard raw × Option V)
        → Stored raw s k value r
        → AddsOnly raw k s r.0
    Stored-AddsOnly s value r p j other absent = elim (p.others j other) [
      | inl kept ↦ kept ∙ absent
      | inr gone ↦ gone
    ]

    Worked-CacheStored :
        (value : V) (r : Cache raw × Option V)
        → Worked raw cap c k (λ s r. Stored raw s k value r) r
        → CacheStored cap c k value r
    Worked-CacheStored value r w = record {
      valid = w.valid;
      count = w.count;
      returns = w.effect.returns ∙ sym ((w.own k refl).0);
      stored = (w.own k refl).1 ∙ w.effect.stored;
      others = λ j other. elim (ℕ_discrete (index raw c j) (index raw c k)) [
        | yes same ↦
            let (was, is) = w.own j same in
            elim (w.effect.others j other) [
              | inl kept ↦ inl (is ∙ kept ∙ sym was)
              | inr gone ↦ inr (is ∙ gone)
            ]
        | no apart ↦ inl (w.apart j apart)
      ];
      victim = w.effect.victim;
      full = λ j lost.
          let (new, enabled, _) = w.effect.full j lost in
          ((w.own k refl).0 ∙ new, omega (arith, enabled, w.sized));
      spares = λ j other safe. elim (ℕ_discrete (index raw c j) (index raw c k)) [
        | yes same ↦ let (was, is) = w.own j same in is ∙ w.effect.spares j other safe ∙ sym was
        | no apart ↦ w.apart j apart
      ];
    }

    -- On a well-formed cache `insert` returns, and leaves it well-formed. The answer is the value
    -- that the key had, and the key now has the new value. At most one other key, the victim, loses
    -- its value, and none does but for a new key in a cache with eviction enabled.
    pub cache_insert-Stored :
        (value : V) → Returns (insert raw c k value) (CacheStored cap c k value)
    unfolding insert
    cache_insert-Stored value =
        let (r, run, w) =
          on_shard-Worked raw cap c k (λ s. Map.insert raw s k value)
            (λ s r. Stored raw s k value r)
            (λ s here valid within at.
              let (r, run, p) = insert-Stored raw s valid within k value in
              (r, run, (p, (p.valid, p.within, p.cap), Stored-AddsOnly s value r p)))
            v in
        (r, run, Worked-CacheStored value r w)

    -- An operation that changes the value at its key by `g`, and answers by `a`, on its shard and
    -- so on the cache.
    module _ {R : Type 0} (g : Option V → Option V) (a : Option V → R) where
      abbrev pub Effect : Shard raw → Shard raw × R → Type 0
      Effect s =
          Becomes raw s (updated (lookup raw s.map) k (g (lookup raw s.map k)))
            (a (lookup raw s.map k))

      abbrev pub CacheEffect : Cache raw × R → Type 0
      CacheEffect =
          CacheBecomes cap (updated (value_at raw c) k (g (value_at raw c k)))
            (a (value_at raw c k))

      pub Effect-AddsOnly : (s : Shard raw) (r : Shard raw × R) → Effect s r → AddsOnly raw k s r.0
      Effect-AddsOnly s r p j other absent =
          p.map j ∙ updated_ne (lookup raw s.map) k _ j other ∙ absent

      pub Worked-CacheBecomes : (r : Cache raw × R) → Worked raw cap c k Effect r → CacheEffect r
      Worked-CacheBecomes r w =
          let here = (w.own k refl).0 in
          record {
            valid = w.valid;
            returns = w.effect.returns ∙ ap a (sym here);
            map = λ j. elim (ℕ_discrete (index raw c j) (index raw c k)) [
              | yes same ↦ let (was, is) = w.own j same in is ∙ w.effect.map j ∙ rw (was, here)
              | no apart ↦
                  w.apart j apart
                  ∙ sym (
                      updated_ne (value_at raw c) k (g (value_at raw c k)) j
                        (λ p. apart (ap (index raw c) p)))
            ];
          }

      pub on_shard-Becomes :
          (f : Shard raw → Run (Shard raw × R))
          → ((s : Shard raw)
              → IsValid raw s
              → IsWithin raw s
              → s.shard_cap ≡ cap
              → Returns (f s) (Effect s))
          → Returns (on_shard raw c k f) CacheEffect
      on_shard-Becomes f works =
          let (r, run, w) =
            on_shard-Worked raw cap c k f Effect
              (λ s here valid within at.
                let (r, run, p) = works s valid within at in
                (r, run, (p, (p.valid, p.within, p.cap), Effect-AddsOnly s r p)))
              v in
          (r, run, Worked-CacheBecomes r w)

    -- On a well-formed cache `remove` returns, and leaves it well-formed. It answers with the key
    -- and its value if the key is stored, and none otherwise, and takes that key, and no other, out
    -- of the map.
    pub cache_remove-Becomes : Returns (remove raw c k) (
        CacheBecomes cap
          (updated (value_at raw c) k none)
          (Option.map (λ x. (k, x)) (value_at raw c k)))
    unfolding remove
    cache_remove-Becomes =
        on_shard-Becomes (λ x. none) (Option.map (λ x. (k, x))) (λ s. Map.remove raw s k)
          (λ s valid within at. remove-Becomes raw s valid within k)

  pub weigh-one : (es : List (Item K V)) → weigh one es ≡ length es
  unfolding weigh
  weigh-one [] = refl
  weigh-one (e ∷ es) = omega (arith, weigh-one es)

  len_of-le :
      (cap : ℕ) (ss : List (Shard raw))
      → 0 < cap
      → All (IsGood raw cap) ss
      → len_of raw ss ≤ length ss * cap
  unfolding len_of Map.len
  len_of-le cap [] some_cap good = omega arith
  len_of-le cap (s ∷ ss) some_cap ((valid, within, at), good) =
      let enabled : 0 < s.shard_cap = rw at some_cap in
      grind (
        arith,
        weigh-one (raw.elements s.map),
        valid.covered,
        within enabled,
        at,
        len_of-le cap ss some_cap good,
      )

  -- A well-formed cache with eviction enabled holds no more entries than its shards have room for.
  pub len-le :
      (cap : ℕ) (c : Cache raw)
      → 0 < cap
      → IsCacheValid raw cap c
      → len raw c ≤ length c.shards * cap
  unfolding len
  len-le cap c some_cap v = len_of-le cap c.shards some_cap v.good

  pub extend_lem :
      (cap : ℕ) (kvs : List (K × V)) (c : Cache raw)
      → IsCacheValid raw cap c
      → Returns
          (extend raw c kvs)
          (λ d. IsCacheValid raw cap d × (length d.shards ≡ length c.shards))
  unfolding extend
  extend_lem cap [] c v = (c, refl, (v, refl))
  extend_lem cap ((k, x) ∷ kvs) c v =
      let (r, run, p) = cache_insert-Stored cap c v k x in
      let (d, rest, (q, count)) = extend_lem cap kvs r.0 p.valid in
      (d, ground (arith, run, rest), (q, count ∙ p.count))
