-- ===== src/Cache/Whole/Effects.antt =====
-- The operations on all shards against the abstract map of the cache.
use neocache.Cache.{Cache, shard_at, clear, len_of, len, is_empty}
use neocache.Cache.At.{shard_at_bound, shard_at-lt}
use neocache.Cache.Refine.{CacheBecomes, weigh-one}
use neocache.Cache.Valid.{IsCacheValid, IsGood, index, value_at, value_at-ok}
use neocache.Cache.Whole.{each_shard, retain, provided_clear, alter_all}
use neocache.Map
use neocache.Map.Clear.{clear_all-Becomes}
use neocache.Map.Each.{effect}
use neocache.Map.Retain.{retained, retain-Becomes, alter_all-Becomes}
use neocache.Map.Spec.{Becomes}
use neocache.Prelude.{
  ◌<◌, ℕ, zero, suc, ◌≡◌, refl, sym, ◌∙◌, ap, Bool, true, false, Option, none, some, List, [], ◌∷◌,
  map, length, All, arith, Returns, Run, ok,
}
use neocache.Shard.{Item, hash_item, Shard}
use neocache.Shard.Invariant.{IsValid, IsWithin}
use neocache.Shard.Lookup.{lookup}
use neocache.Table.{Key, RawTable}

module _ {K V : Type 0} ⦃key : Key K⦄ (raw : RawTable (Item K V) hash_item) where
  -- What holds of the shards at each index.
  abbrev pub At : (K → Option V → Option V) → List (Shard raw) → List (Shard raw) → Type 0
  At m ss ts =
      (i : ℕ) (s : Shard raw)
      → shard_at ss i ≡ ok s
      → (t : Shard raw) × (shard_at ts i ≡ ok t)
        × ((j : K) → lookup raw t.map j ≡ m j (lookup raw s.map j))

  pub At-cons :
      (m : K → Option V → Option V) (ss ts : List (Shard raw)) (s t : Shard raw)
      → ((j : K) → lookup raw t.map j ≡ m j (lookup raw s.map j))
      → At m ss ts
      → At m (s ∷ ss) (t ∷ ts)
  unfolding shard_at
  At-cons m ss ts s t p q zero u here =
      let same : s ≡ u = ground (arith, here) in
      (t, refl, λ j. p j ∙ ap (λ x. m j (lookup raw x.map j)) same)
  At-cons m ss ts s t p q (suc i) u here = q i u here

  -- What an operation on all shards, with the effect `m` on the value at each key, does to them.
  pub record Each (cap : ℕ) (m : K → Option V → Option V) (ss ts : List (Shard raw)) : Type 0 where
    pub good : All (IsGood raw cap) ts
    pub count : length ts ≡ length ss
    pub at : At m ss ts

  module _ (m : K → Option V → Option V) (f : Shard raw → Run (Shard raw))
      (works : (s : Shard raw)
        → IsValid raw s
        → IsWithin raw s
        → Returns (f s) (λ t. Becomes raw s (λ j. m j (lookup raw s.map j)) tt (t, tt {0}))) where
    pub each_shard-Each :
        (cap : ℕ) (ss : List (Shard raw))
        → All (IsGood raw cap) ss
        → Returns (each_shard raw f ss) (Each cap m ss)
    unfolding each_shard shard_at
    each_shard-Each cap [] good =
        ([], refl, record { good = tt; count = refl; at = λ i s here. absurd (ground arith) })
    each_shard-Each cap (s ∷ ss) ((valid, within, is_cap), good) =
        let (t, run, p) = works s valid within in
        let (ts, rest, q) = each_shard-Each cap ss good in
        (
          t ∷ ts,
          ground (arith, run, rest),
          record {
            good = ((p.valid, p.within, p.cap ∙ is_cap), q.good);
            count = ap suc q.count;
            at = At-cons m ss ts s t p.map q.at;
          },
        )

  pub Each-CacheBecomes :
      (cap : ℕ) (m : K → Option V → Option V) (c : Cache raw) (ts : List (Shard raw))
      → IsCacheValid raw cap c
      → ((j : K) → m j none ≡ none)
      → Each cap m c.shards ts
      → CacheBecomes raw cap (λ j. m j (value_at raw c j)) tt (record c { shards = ts }, tt {0})
  Each-CacheBecomes cap m c ts v adds_none e = record {
    valid = record {
      good = e.good;
      selects = λ h. rw e.count (v.selects h);
      home = λ i t j there away.
          let low : i < length c.shards = rw (← e.count) (shard_at_bound ts i t there) in
          let (s, here) = shard_at-lt c.shards i low in
          let (u, at, p) = e.at i s here in
          let is : u ≡ t = ground (arith, at, there) in
          rw (← is) (p j ∙ ap (m j) (v.home i s j here away) ∙ adds_none j);
    };
    returns = refl;
    map = λ j.
        let (s, here) = shard_at-lt c.shards (index raw c j) (v.selects (key.hash_one j)) in
        let (t, there, p) = e.at (index raw c j) s here in
        value_at-ok raw (record c { shards = ts }) j t there
        ∙ p j
        ∙ ap (m j) (sym (value_at-ok raw c j s here));
  }

  -- On a well-formed cache `retain` returns, and leaves it well-formed. Every stored key gets the
  -- value that the closure writes on it and its value, or is taken out if the closure answers
  -- `false`.
  pub cache_retain-Becomes :
      (cap : ℕ) (c : Cache raw) (f : K → V → Bool × V)
      → IsCacheValid raw cap c
      → Returns (retain raw c f) (λ d.
        CacheBecomes raw cap (λ j. effect (retained raw f) j (value_at raw c j)) tt (d, tt {0}))
  unfolding retain
  cache_retain-Becomes cap c f v =
      let (ts, run, e) =
        each_shard-Each (effect (retained raw f)) (λ s. Map.retain raw s f)
          (λ s valid within. retain-Becomes raw s f valid within) cap c.shards v.good in
      (
        record c { shards = ts },
        ground (arith, run),
        Each-CacheBecomes cap (effect (retained raw f)) c ts v (λ j. refl) e,
      )

  -- On a well-formed cache `alter_all` returns, and leaves it well-formed. Every stored key gets the
  -- closure's result on it and its value, and no key is added or taken out.
  pub cache_alter_all-Becomes :
      (cap : ℕ) (c : Cache raw) (f : K → V → V)
      → IsCacheValid raw cap c
      → Returns (alter_all raw c f) (λ d.
        CacheBecomes raw cap
          (λ j. effect (λ i x. some (f i x)) j (value_at raw c j))
          tt
          (d, tt {0}))
  unfolding alter_all
  cache_alter_all-Becomes cap c f v =
      let (ts, run, e) =
        each_shard-Each (effect (λ i x. some (f i x))) (λ s. Map.alter_all raw s f)
          (λ s valid within. alter_all-Becomes raw s f valid within) cap c.shards v.good in
      (
        record c { shards = ts },
        ground (arith, run),
        Each-CacheBecomes cap (effect (λ i x. some (f i x))) c ts v (λ j. refl) e,
      )

  len_of-clear :
      (cap : ℕ) (ss : List (Shard raw))
      → All (IsGood raw cap) ss
      → len_of raw (map (Map.clear_all raw) ss) ≡ 0
  unfolding len_of Map.len
  len_of-clear cap [] good = refl
  len_of-clear cap (s ∷ ss) ((valid, within, is_cap), good) =
      let p = clear_all-Becomes raw s valid in
      omega (
        arith,
        p.returns,
        p.valid.covered,
        weigh-one raw (raw.elements (Map.clear_all raw s).map),
        len_of-clear cap ss good,
      )

  pub each-map :
      (f : Shard raw → Shard raw) (ss : List (Shard raw))
      → each_shard raw (λ s. ok (f s)) ss ≡ ok (map f ss)
  unfolding each_shard
  each-map f [] = refl
  each-map f (s ∷ ss) = ground (arith, each-map f ss)

  nothing-Becomes :
      (s : Shard raw)
      → IsValid raw s
      → IsWithin raw s
      → Returns {R = Shard raw}
          (ok (Map.clear_all raw s))
          (λ t. Becomes raw s (λ j. none) tt (t, tt {0}))
  nothing-Becomes s valid within =
      let p = clear_all-Becomes raw s valid in
      (
        Map.clear_all raw s,
        refl,
        record { valid = p.valid; within = p.within; cap = p.cap; returns = refl; map = p.map },
      )

  -- `clear` leaves a well-formed cache well-formed, and without any stored key: it `is_empty`.
  pub clear-empty :
      (cap : ℕ) (c : Cache raw)
      → IsCacheValid raw cap c
      → CacheBecomes raw cap (λ j. none) true (clear raw c, is_empty raw (clear raw c))
  unfolding clear is_empty len
  clear-empty cap c v =
      let (ts, run, e) =
        each_shard-Each (λ j x. none) (λ s. ok (Map.clear_all raw s)) nothing-Becomes cap c.shards
          v.good in
      let same : ts ≡ map (Map.clear_all raw) c.shards =
        ground (arith, run, each-map (Map.clear_all raw) c.shards) in
      let p = Each-CacheBecomes cap (λ j x. none) c ts v (λ j. refl) e in
      let q : CacheBecomes raw cap (λ j. none) tt
          (record c { shards = map (Map.clear_all raw) c.shards }, tt {0}) =
        rw (← same) p in
      record { valid = q.valid; returns = rw (len_of-clear cap c.shards v.good) refl; map = q.map }

  refused : (j : K) (x : Option V) → effect (retained raw (λ k y. (false, y))) j x ≡ none
  refused j none = refl
  refused j (some y) = refl

  -- On a well-formed cache the `_clear` that the trait provides, a `retain` that refuses every
  -- entry, returns a well-formed cache without any stored key, as `clear` does.
  pub provided_clear-clear :
      (cap : ℕ) (c : Cache raw)
      → IsCacheValid raw cap c
      → Returns
          (provided_clear raw c)
          (λ d. CacheBecomes raw cap (value_at raw (clear raw c)) tt (d, tt {0}))
  unfolding provided_clear
  provided_clear-clear cap c v =
      let (d, run, p) = cache_retain-Becomes cap c (λ k x. (false, x)) v in
      (
        d,
        run,
        record {
          valid = p.valid;
          returns = refl;
          map = λ j. p.map j ∙ refused j (value_at raw c j) ∙ sym ((clear-empty cap c v).map j);
        },
      )
