-- ===== src/Cache/History.antt =====
-- The operations of src/lib.rs as the calls of a client, and runs of calls. Each call holds the
-- lock of a shard while it works there, so a run is an order in which the threads' calls take place.
pub mod Ideal
pub mod Follow
use neocache.Cache
use neocache.Cache.{Cache, shard_at}
use neocache.Cache.Keyed
use neocache.Cache.Valid.{index}
use neocache.Cache.Whole
use neocache.Map.Each.{effect}
use neocache.Map.Spec.{updated}
use neocache.Map.TakeIf.{takes, leaves, taken}
use neocache.Map.Read.{is_some}
use mathlib.Core.Option
use neocache.Prelude.{
  ℕ, ◌<◌, ◌≡◌, ◌≢◌, ◌⊎◌, Bool, if◌then◌else◌, Option, none, some, List, [], ◌∷◌, Run, ok, ◌>>=◌,
}
use neocache.Shard.{Item, hash_item, as_ref}
use neocache.Table.{Key, RawTable}

pub data Call (K V : Type 0) : Type 0 where
  insert : K → V → Call K V
  remove : K → Call K V
  remove_if : K → (K → V → Bool) → Call K V
  remove_if_mut : K → (K → V → Bool × V) → Call K V
  get : K → Call K V
  contains_key : K → Call K V
  view : K → (K → V → V) → Call K V
  alter : K → (K → V → V) → Call K V
  alter_all : (K → V → V) → Call K V
  retain : (K → V → Bool × V) → Call K V
  clear : Call K V

-- What a call answers with.
pub data Answer (K V : Type 0) : Type 0 where
  value : Option V → Answer K V
  entry : Option (K × V) → Answer K V
  flag : Bool → Answer K V
  done : Answer K V

module _ {K V : Type 0} ⦃key : Key K⦄ where
  -- The answer to a call on a map that evicts nothing, and the map after it.
  unfoldable pub answer : (K → Option V) → Call K V → Answer K V
  answer m (insert k v) = value (m k)
  answer m (remove k) = entry (Option.map (λ x. (k, x)) (m k))
  answer m (remove_if k f) =
      entry (if takes (f k) (m k) then Option.map (λ x. (k, x)) (m k) else none)
  answer m (remove_if_mut k f) = entry (taken k (f k) (m k))
  answer m (get k) = value (m k)
  answer m (contains_key k) = flag (is_some (m k))
  answer m (view k f) = value (Option.map (f k) (m k))
  answer m (alter k f) = done
  answer m (alter_all f) = done
  answer m (retain f) = done
  answer m clear = done

  unfoldable pub after : (K → Option V) → Call K V → K → Option V
  after m (insert k v) = updated m k (some v)
  after m (remove k) = updated m k none
  after m (remove_if k f) = updated m k (if takes (f k) (m k) then none else m k)
  after m (remove_if_mut k f) = updated m k (leaves (f k) (m k))
  after m (get k) = m
  after m (contains_key k) = m
  after m (view k f) = m
  after m (alter k f) = updated m k (Option.map (f k) (m k))
  after m (alter_all f) = λ j. effect (λ i x. some (f i x)) j (m j)
  after m (retain f) = λ j. effect (λ i x. if (f i x).0 then some (f i x).1 else none) j (m j)
  after m clear = λ j. none

  -- A call inserts a new key, other than `j`.
  unfoldable pub InsertsNew : (K → Option V) → Call K V → K → Type 0
  InsertsNew m (insert k v) j = (j ≢ k) × (m k ≡ none)
  InsertsNew m call j = ⊥

  -- What a call may do to the map of a cache whose shards have the capacity `cap`: one key at most,
  -- the victim, is evicted, and that only by the insertion of a new key where eviction is enabled.
  pub record Allows (cap : ℕ) (m : K → Option V) (call : Call K V) (n : K → Option V) : Type 0 where
    pub victim : Option K
    pub keeps :
        (j : K)
        → (n j ≡ after m call j)
          ⊎ ((victim ≡ some j) × (n j ≡ none) × (0 < cap) × InsertsNew m call j)

  -- A run of calls with their answers leads from one map to another.
  unfoldable pub Follows :
      ℕ → (K → Option V) → List (Call K V) → List (Answer K V) → (K → Option V) → Type 0
  Follows cap m [] [] n = (j : K) → n j ≡ m j
  Follows cap m [] (a ∷ rest) n = ⊥
  Follows cap m (call ∷ calls) [] n = ⊥
  Follows cap m (call ∷ calls) (a ∷ rest) n =
      (o : K → Option V) × (a ≡ answer m call) × Allows cap m call o × Follows cap o calls rest n

  module _ (raw : RawTable (Item K V) hash_item) where
    -- The value behind a guard on the shard at `i`.
    unfoldable pub behind : ℕ → Cache raw × Option raw.Bucket → Run (Cache raw × Option V)
    unfolding shard_at
    behind i (c, none) = ok (c, none)
    behind i (c, some b) = do
      s ← shard_at c.shards i
      e ← as_ref raw s.map b
      ok (c, some e.1.value)

    -- `get`, and a read through its guard.
    unfoldable pub get_value : Cache raw → K → Run (Cache raw × Option V)
    unfolding Keyed.get behind
    get_value c k = Keyed.get raw c k >>= behind (index raw c k)

    unfoldable pub perform : Cache raw → Call K V → Run (Cache raw × Answer K V)
    unfolding Cache.insert Cache.remove Keyed.remove_if Keyed.remove_if_mut get_value
        Cache.contains_key Keyed.view Keyed.alter Whole.alter_all Whole.retain Cache.clear
    perform c (insert k v) = do (c', r) ← Cache.insert raw c k v; ok (c', value r)
    perform c (remove k) = do (c', r) ← Cache.remove raw c k; ok (c', entry r)
    perform c (remove_if k f) = do (c', r) ← Keyed.remove_if raw c k f; ok (c', entry r)
    perform c (remove_if_mut k f) = do (c', r) ← Keyed.remove_if_mut raw c k f; ok (c', entry r)
    perform c (get k) = do (c', r) ← get_value c k; ok (c', value r)
    perform c (contains_key k) = do (c', r) ← Cache.contains_key raw c k; ok (c', flag r)
    perform c (view k f) = do (c', r) ← Keyed.view raw c k f; ok (c', value r)
    perform c (alter k f) = do (c', _) ← Keyed.alter raw c k f; ok (c', done)
    perform c (alter_all f) = do c' ← Whole.alter_all raw c f; ok (c', done)
    perform c (retain f) = do c' ← Whole.retain raw c f; ok (c', done)
    perform c clear = ok (Cache.clear raw c, done)

    unfoldable pub run : Cache raw → List (Call K V) → Run (Cache raw × List (Answer K V))
    unfolding perform
    run c [] = ok (c, [])
    run c (call ∷ calls) = do
      (c', a) ← perform c call
      (c'', rest) ← run c' calls
      ok (c'', a ∷ rest)
