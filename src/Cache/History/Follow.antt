-- ===== src/Cache/History/Follow.antt =====
-- Every run of calls on a cache, against the abstract map.
use neocache.Cache
use neocache.Cache.{Cache, shard_at, with_capacity_and_shard_amount}
use neocache.Cache.History.{
  Call, insert, remove, remove_if, remove_if_mut, get, contains_key, view, alter, alter_all, retain,
  clear, Answer, value, entry, flag, done, InsertsNew, answer, after, Allows, Follows, behind,
  get_value, perform, run,
}
use neocache.Cache.Keyed.Effects.{
  CacheLooked, cache_get-CacheLooked, cache_contains_key-Becomes, cache_view-Becomes,
  cache_alter-Becomes, cache_remove_if-Becomes, cache_remove_if_mut-Becomes,
}
use neocache.Cache.Refine.{CacheStored, CacheBecomes, cache_insert-Stored, cache_remove-Becomes}
use neocache.Cache.Valid.{IsCacheValid, index, value_at}
use neocache.Cache.Whole.Effects.{cache_retain-Becomes, cache_alter_all-Becomes, clear-empty}
use neocache.Prelude.{
  ℕ, ◌<◌, ◌≢◌, ◌⊎◌, inl, inr, Bool-cases, ◌≡◌, refl, ◌∙◌, ap, Option, none, some, List, [], ◌∷◌,
  Run, ok, ◌>>=◌, Returns, arith,
}
use neocache.Shard.{Item, hash_item}
use neocache.Table.{Key, RawTable}

is_victim : {K : Type 0} ⦃key : Key K⦄ (j : K) (x : Option K) → (x ≡ some j) ⊎ (x ≢ some j)
is_victim j none = inr (λ e. cc)
is_victim ⦃key⦄ j (some k) = elim (Bool-cases (key.beq k j)) [
  | inl same ↦ inl (ap some ((key.beq_iff k j).0 same))
  | inr other ↦ inr (λ e. ground (arith, other, (key.beq_iff k j).1, e))
]

module _ {K V : Type 0} ⦃key : Key K⦄ (raw : RawTable (Item K V) hash_item) (cap : ℕ) where
  -- What a call does: the cache stays well-formed, the answer is that of the abstract map, and the
  -- map changes as the call allows.
  record Done (c : Cache raw) (call : Call K V) (r : Cache raw × Answer K V) : Type 0 where
    valid : IsCacheValid raw cap r.0
    answers : r.1 ≡ answer (value_at raw c) call
    allowed : Allows cap (value_at raw c) call (value_at raw r.0)

  -- The form of most calls: an operation whose result is wrapped as an answer.
  wrapped :
      {R : Type 0} (c : Cache raw) (m : K → Option V) (a : R) (f : R → Answer K V)
      (code : Run (Cache raw × R))
      → Returns code (CacheBecomes raw cap m a)
      → Returns (code >>= λ r. ok (r.0, f r.1)) (CacheBecomes raw cap m (f a))
  wrapped c m a f code (r, found, p) = (
    (r.0, f r.1),
    ground (arith, found),
    record { valid = p.valid; returns = ap f p.returns; map = p.map },
  )

  -- An operation without a result.
  finished :
      (m : K → Option V) (code : Run (Cache raw))
      → Returns code (λ d. CacheBecomes raw cap m tt (d, tt {0}))
      → Returns (code >>= λ d. ok (d, done)) (CacheBecomes raw {R = Answer K V} cap m done)
  finished m code (d, found, p) =
      ((d, done), ground (arith, found), record { valid = p.valid; returns = refl; map = p.map })

  module _ (c : Cache raw) (v : IsCacheValid raw cap c) where
    behind_lem :
        (k : K) (r : Cache raw × Option raw.Bucket)
        → CacheLooked raw cap c k r
        → behind raw (index raw c k) r ≡ ok (r.0, value_at raw c k)
    unfolding behind
    behind_lem k (c', none) l = rw (l.points) refl
    behind_lem k (c', some b) l =
        let (e, here, _, is) = l.points in ground (arith, l.stands, here, is)

    get_value-Becomes :
        (k : K)
        → Returns (get_value raw c k) (CacheBecomes raw cap (value_at raw c) (value_at raw c k))
    unfolding get_value
    get_value-Becomes k =
        let (r, found, l) = cache_get-CacheLooked raw cap c v k in
        (
          (r.0, value_at raw c k),
          ground (arith, found, behind_lem k r l),
          record { valid = l.valid; returns = refl; map = l.map },
        )

    -- The calls that evict nothing.
    Becomes-Done :
        (call : Call K V) (code : Run (Cache raw × Answer K V))
        → Returns code
            (CacheBecomes raw cap (after (value_at raw c) call) (answer (value_at raw c) call))
        → Returns code (Done c call)
    Becomes-Done call code (r, found, p) = (
      r,
      found,
      record {
        valid = p.valid;
        answers = p.returns;
        allowed = record { victim = none; keeps = λ j. inl (p.map j) };
      },
    )

    -- An insertion at a key, seen from the key `j`.
    insert-keeps :
        (k : K) (x : V) (r : Cache raw × Option V) (p : CacheStored raw cap c k x r) (j : K)
        → (value_at raw r.0 j ≡ after (value_at raw c) (insert k x) j)
          ⊎ ((p.victim ≡ some j)
              × (value_at raw r.0 j ≡ none)
              × (0 < cap)
              × InsertsNew (value_at raw c) (insert k x) j)
    unfolding after InsertsNew
    insert-keeps k x r p j = elim (Bool-cases (key.beq j k)) [
      | inl here ↦
          let same : j ≡ k = (key.beq_iff j k).0 here in
          inl (rw here (ap (value_at raw r.0) same ∙ p.stored))
      | inr there ↦
          let other : j ≢ k = λ e. ground (arith, there, (key.beq_iff j k).1 e) in
          elim (is_victim j p.victim) [
            | inr spared ↦ inl (rw there (p.spares j other spared))
            | inl taken ↦ elim (p.others j other) [
              | inl same ↦ inl (rw there same)
              | inr gone ↦
                  let (new, enabled) = p.full j taken in inr (taken, gone, enabled, (other, new))
            ]
          ]
    ]

    perform-Done : (call : Call K V) → Returns (perform raw c call) (Done c call)
    unfolding perform after answer
    perform-Done (insert k x) =
        let (r, found, p) = cache_insert-Stored raw cap c v k x in
        (
          (r.0, value r.1),
          ground (arith, found),
          record {
            valid = p.valid;
            answers = ap value p.returns;
            allowed = record { victim = p.victim; keeps = insert-keeps k x r p };
          },
        )
    perform-Done (remove k) =
        Becomes-Done (remove k) _ (wrapped c _ _ entry _ (cache_remove-Becomes raw cap c v k))
    perform-Done (remove_if k f) =
        Becomes-Done (remove_if k f) _
          (wrapped c _ _ entry _ (cache_remove_if-Becomes raw cap c v k f))
    perform-Done (remove_if_mut k f) =
        Becomes-Done (remove_if_mut k f) _
          (wrapped c _ _ entry _ (cache_remove_if_mut-Becomes raw cap c v k f))
    perform-Done (get k) = Becomes-Done (get k) _ (wrapped c _ _ value _ (get_value-Becomes k))
    perform-Done (contains_key k) =
        Becomes-Done (contains_key k) _
          (wrapped c _ _ flag _ (cache_contains_key-Becomes raw cap c v k))
    perform-Done (view k f) =
        Becomes-Done (view k f) _ (wrapped c _ _ value _ (cache_view-Becomes raw cap c v k f))
    perform-Done (alter k f) =
        Becomes-Done (alter k f) _
          (wrapped c _ _ (λ x. done) _ (cache_alter-Becomes raw cap c v k f))
    perform-Done (alter_all f) =
        Becomes-Done (alter_all f) _ (finished _ _ (cache_alter_all-Becomes raw cap c f v))
    perform-Done (retain f) =
        Becomes-Done (retain f) _ (finished _ _ (cache_retain-Becomes raw cap c f v))
    perform-Done clear =
        let p = clear-empty raw cap c v in
        Becomes-Done clear _
          ((Cache.clear raw c, done), refl, record { valid = p.valid; returns = refl; map = p.map })

  -- On a well-formed cache every sequence of calls returns, and leaves the cache well-formed. There
  -- is a sequence of abstract maps, from that of the first cache to that of the last, in which each
  -- call has the answer that the map before it gives, and changes that map as the call does on a
  -- map, except that an insertion of a new key in a cache with eviction enabled may lose the value
  -- of one other key.
  pub run-Follows :
      (c : Cache raw) (calls : List (Call K V))
      → IsCacheValid raw cap c
      → Returns (run raw c calls) (λ r.
        IsCacheValid raw cap r.0 × Follows cap (value_at raw c) calls r.1 (value_at raw r.0))
  unfolding run Follows
  run-Follows c [] v = ((c, []), refl, (v, λ j. refl))
  run-Follows c (call ∷ calls) v =
      let (r, first, p) = perform-Done c v call in
      let (q, others, (valid, follows)) = run-Follows r.0 calls p.valid in
      (
        (q.0, r.1 ∷ q.1),
        ground (arith, first, others),
        (valid, (value_at raw r.0, p.answers, p.allowed, follows)),
      )
