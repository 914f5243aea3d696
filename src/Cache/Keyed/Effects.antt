-- ===== src/Cache/Keyed/Effects.antt =====
-- The other keyed operations of the whole cache against its abstract map.
use mathlib.Core.Option
use neocache.Cache.{Cache, shard_at, on_shard, contains_key}
use neocache.Cache.Keyed.{get, remove_if, remove_if_mut, view, alter, shr, unwrapped}
use neocache.Cache.Refine.{CacheBecomes, on_shard-Becomes}
use neocache.Cache.Valid.{IsCacheValid, index, value_at, Worked, on_shard-Worked}
use neocache.Map
use neocache.Map.Read.{is_some, Points, Looked, get-Looked, contains_key-Becomes, view-Becomes}
use neocache.Map.Read.Alter.{alter-Becomes}
use neocache.Map.Spec.{Becomes, updated, updated_same}
use neocache.Map.TakeIf.{takes, leaves, taken, remove_if-Becomes, remove_if_mut-Becomes}
use neocache.Prelude.{
  ℕ, ◌≡◌, refl, sym, ◌∙◌, Bool, true, false, if◌then◌else◌, Option, none, some, arith, Returns, Run,
  ok, fault, panic, ◌>>=◌,
}
use neocache.Shard.{Item, hash_item, Shard}
use neocache.Shard.Invariant.{IsValid, IsWithin}
use neocache.Shard.Lookup.{lookup}
use neocache.Table.{Key, RawTable}
use native.Mathlib.Decide.{ℕ_discrete}

-- Taking out a key or leaving it.
chosen :
    {K V : Type 0} ⦃key : Key K⦄ (m : K → Option V) (k : K) (t : Bool) (j : K)
    → (if t then updated m k none else m) j ≡ updated m k (if t then none else m k) j
chosen m k true j = refl
chosen m k false j = updated_same m k (m k) refl j

module _ {K V : Type 0} ⦃key : Key K⦄ (raw : RawTable (Item K V) hash_item) where
  open raw use {Bucket}

  Becomes-congr :
      {R : Type 0} (s : Shard raw) (m m' : K → Option V) (answer : R) (r : Shard raw × R)
      → ((j : K) → m j ≡ m' j)
      → Becomes raw s m answer r
      → Becomes raw s m' answer r
  Becomes-congr s m m' answer r same p = record {
    valid = p.valid;
    within = p.within;
    cap = p.cap;
    returns = p.returns;
    map = λ j. p.map j ∙ same j;
  }

  CacheBecomes-congr :
      {R : Type 0} (cap : ℕ) (m m' : K → Option V) (answer : R) (r : Cache raw × R)
      → ((j : K) → m j ≡ m' j)
      → CacheBecomes raw cap m answer r
      → CacheBecomes raw cap m' answer r
  CacheBecomes-congr cap m m' answer r same p = record {
    valid = p.valid;
    returns = p.returns;
    map = λ j. p.map j ∙ same j;
  }

  -- The cache after a lookup of `k`: nothing that a user sees has changed, and the answer points
  -- into the key's shard.
  pub record CacheLooked (cap : ℕ) (c : Cache raw) (k : K) (r : Cache raw × Option Bucket)
      : Type 0 where
    pub valid : IsCacheValid raw cap r.0
    pub map : (j : K) → value_at raw r.0 j ≡ value_at raw c j
    pub shard : Shard raw
    pub stands : shard_at r.0.shards (index raw c k) ≡ ok shard
    pub points : Points raw shard k (value_at raw c k) r.1

  module _ (cap : ℕ) (c : Cache raw) (v : IsCacheValid raw cap c) (k : K) where
    -- An operation that leaves the abstract map as it is.
    unchanged :
        {R : Type 0} (a : Option V → R) (f : Shard raw → Run (Shard raw × R))
        → ((s : Shard raw)
            → IsValid raw s
            → IsWithin raw s
            → Returns (f s) (Becomes raw s (lookup raw s.map) (a (lookup raw s.map k))))
        → Returns
            (on_shard raw c k f)
            (CacheBecomes raw cap (value_at raw c) (a (value_at raw c k)))
    unchanged a f works =
        let (r, run, p) =
          on_shard-Becomes raw cap c v k (λ x. x) a f
            (λ s valid within at.
              let (r, run, p) = works s valid within in
              let m = lookup raw s.map in
              (
                r,
                run,
                Becomes-congr s m (updated m k (m k)) (a (m k)) r (updated_same m k (m k) refl) p,
              )) in
        let m = value_at raw c in
        (
          r,
          run,
          CacheBecomes-congr cap (updated m k (m k)) m (a (m k)) r
              (λ j. sym (updated_same m k (m k) refl j)) p,
        )

    -- On a well-formed cache `contains_key` returns whether the key is stored, and changes no
    -- stored value.
    pub cache_contains_key-Becomes :
        Returns
          (contains_key raw c k)
          (CacheBecomes raw cap (value_at raw c) (is_some (value_at raw c k)))
    unfolding contains_key
    cache_contains_key-Becomes =
        unchanged is_some (λ s. Map.contains_key raw s k)
          (λ s valid within. contains_key-Becomes raw s valid within k)

    -- On a well-formed cache `view` returns the result of the closure on the key and its value if
    -- the key is stored, and none otherwise, and changes no stored value.
    pub cache_view-Becomes :
        {R : Type 0} (f : K → V → R)
        → Returns
            (view raw c k f)
            (CacheBecomes raw cap (value_at raw c) (Option.map (f k) (value_at raw c k)))
    unfolding view
    cache_view-Becomes f =
        unchanged (Option.map (f k)) (λ s. Map.view raw s k f)
          (λ s valid within. view-Becomes raw s valid within k f)

    -- On a well-formed cache `alter` returns. If the key is stored its value becomes the closure's
    -- result on it; no other stored value changes.
    pub cache_alter-Becomes :
        (f : K → V → V)
        → Returns (alter raw c k f) (
            CacheBecomes raw cap
              (updated (value_at raw c) k (Option.map (f k) (value_at raw c k)))
              tt)
    unfolding alter
    cache_alter-Becomes f =
        on_shard-Becomes raw cap c v k (Option.map (f k)) (λ x. tt)
          (λ s. do s' ← Map.alter raw s k f; ok (s', tt))
          (λ s valid within at.
            let (s', run, p) = alter-Becomes raw s valid within k f in
            ((s', tt), ground (arith, run), p))

    -- On a well-formed cache `remove_if` returns. If the key is stored and the predicate holds of
    -- its value, it takes the key out and answers with the key and its value; otherwise it answers
    -- with none. No other stored value changes.
    pub cache_remove_if-Becomes :
        (f : K → V → Bool)
        → Returns (remove_if raw c k f) (
            CacheBecomes raw cap
              (updated
                (value_at raw c)
                k
                (if takes (f k) (value_at raw c k) then none else value_at raw c k))
              (if takes (f k) (value_at raw c k)
                then Option.map (λ x. (k, x)) (value_at raw c k)
                else none))
    unfolding remove_if
    cache_remove_if-Becomes f =
        on_shard-Becomes raw cap c v k (λ x. if takes (f k) x then none else x)
          (λ x. if takes (f k) x then Option.map (λ y. (k, y)) x else none)
          (λ s. Map.remove_if raw s k f)
          (λ s valid within at.
            let (r, run, p) = remove_if-Becomes raw s valid within k f in
            (
              r,
              run,
              Becomes-congr s _ _ _ r
                  (chosen (lookup raw s.map) k (takes (f k) (lookup raw s.map k))) p,
            ))

    -- On a well-formed cache `remove_if_mut` returns. If the key is stored its value becomes what
    -- the predicate writes; if the predicate answers `true` the key is taken out, and the answer is
    -- the key with the written value, and otherwise it is none. No other stored value changes.
    pub cache_remove_if_mut-Becomes :
        (f : K → V → Bool × V)
        → Returns (remove_if_mut raw c k f) (
            CacheBecomes raw cap
              (updated (value_at raw c) k (leaves (f k) (value_at raw c k)))
              (taken k (f k) (value_at raw c k)))
    unfolding remove_if_mut
    cache_remove_if_mut-Becomes f =
        on_shard-Becomes raw cap c v k (leaves (f k)) (taken k (f k))
          (λ s. Map.remove_if_mut raw s k f)
          (λ s valid within at. remove_if_mut-Becomes raw s valid within k f)

    Worked-CacheLooked :
        (r : Cache raw × Option Bucket)
        → Worked raw cap c k (λ s. Looked raw s k) r
        → CacheLooked cap c k r
    Worked-CacheLooked r w = record {
      valid = w.valid;
      map = λ j. elim (ℕ_discrete (index raw c j) (index raw c k)) [
        | yes same ↦ let (was, is) = w.own j same in is ∙ w.effect.map j ∙ sym was
        | no apart ↦ w.apart j apart
      ];
      shard = w.next;
      stands = w.stands;
      points = rw ((w.own k refl).0) w.effect.points;
    }

    -- On a well-formed cache `get` returns. If the key is stored it answers with a bucket of the
    -- key's shard that holds the key with its value, and otherwise with none; the cache stays
    -- well-formed, and no stored value changes.
    pub cache_get-CacheLooked : Returns (get raw c k) (CacheLooked cap c k)
    unfolding get
    cache_get-CacheLooked =
        let (r, run, w) =
          on_shard-Worked raw cap c k (λ s. Map.get raw s k) (λ s. Looked raw s k)
            (λ s here valid within at.
              let (r, run, p) = get-Looked raw s valid within k in
              (r, run, (p, (p.valid, p.within, p.cap), λ j other absent. p.map j ∙ absent)))
            v in
        (r, run, Worked-CacheLooked r w)

    abbrev pub Unwrapped : Option V → Run (Cache raw × Bucket) → Type 0
    Unwrapped none code = code ≡ fault panic
    Unwrapped (some x) code = Returns code (λ r. CacheLooked cap c k (r.0, some r.1))

    unwrapped_lem :
        (x : Option V) (r : Cache raw × Option Bucket)
        → value_at raw c k ≡ x
        → CacheLooked cap c k r
        → Unwrapped x (unwrapped raw r)
    unfolding unwrapped
    unwrapped_lem none (c', none) at l = refl
    unwrapped_lem none (c', some b) at l =
        let (e, here, same, is) = l.points in absurd (ground (arith, at, is))
    unwrapped_lem (some x) (c', none) at l = absurd (ground (arith, at, l.points))
    unwrapped_lem (some x) (c', some b) at l = ((c', b), refl, l)

    -- On a well-formed cache the operator `>>` panics if the key is not stored. If it is, it returns
    -- a bucket of the key's shard that holds the key with its value, and no stored value changes.
    pub shr-Unwrapped : Unwrapped (value_at raw c k) (shr raw c k)
    unfolding shr
    shr-Unwrapped =
        let (r, run, l) = cache_get-CacheLooked in
        rw run (unwrapped_lem (value_at raw c k) r refl l)
