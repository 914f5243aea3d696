-- ===== src/Serde/Read.antt =====
-- What `visit_map` of src/ser.rs builds from the entries of a document, and a cache that is written
-- and read again.
use mathlib.Core.List.{Permᴰ}
use neocache.Cache.{Cache, len}
use neocache.Cache.Valid.{IsCacheValid, value_at}
use neocache.Cache.Whole.Fresh.{last_of, last_of-congr, unbounded_insert, with_hasher-IsCacheValid}
use neocache.Iter.Every.{pairs_of}
use neocache.Iter.Exact.{length-pairs_of, pairs_exact}
use neocache.Map.Read.{is_some}
use neocache.Prelude.{
  ℕ, zero, suc, ◌*◌, ◌^◌, ◌≤◌, ◌<◌, ◌≡◌, refl, sym, ◌∙◌, ◌⊎◌, inl, inr, Option, none, some, List,
  [], ◌∷◌, length, Run, ok, Returns, arith,
}
use neocache.Serde.Order.{IsOnce, length-Perm, last_of-Perm, to_nat_bit}
use neocache.Serde.{Serializer, MapAccess, serialize, visit_loop, visit_map}
use neocache.Serde.Write.{document, serialize-document}
use neocache.Shard.{Item, hash_item}
use neocache.Table.{Key, RawTable}

module _ {K V : Type 0} (access : MapAccess K V) where
  open access use {State, Error, next_entry}

  -- From the state on, the access gives the entries of a list, and then ends or fails.
  unfoldable pub Yields : State → List (K × V) → Option Error → Type 0
  Yields st [] none = (st' : State) × (next_entry st ≡ inr (st', none))
  Yields st [] (some e) = next_entry st ≡ inl e
  Yields st (kv ∷ kvs) o = (st' : State) × (next_entry st ≡ inr (st', some kv)) × Yields st' kvs o

module _ {K V : Type 0} ⦃key : Key K⦄ (raw : RawTable (Item K V) hash_item) where
  module _ (access : MapAccess K V) where
    open access use {State, Error, next_entry}

    -- The outcome of a visit: the first error, or an unbounded cache with the map `m`.
    abbrev pub Visited : (K → Option V) → Option Error → Error ⊎ Cache raw → Type 0
    Visited m (some e) r = r ≡ inl e
    Visited m none (inl e) = ⊥
    Visited m none (inr d) = IsCacheValid raw 0 d × ((j : K) → value_at raw d j ≡ m j)

    Visited-congr :
        (m n : K → Option V) (o : Option Error) (r : Error ⊎ Cache raw)
        → ((j : K) → m j ≡ n j)
        → Visited m o r
        → Visited n o r
    Visited-congr m n (some e) r same p = p
    Visited-congr m n none (inl e) same p = p
    Visited-congr m n none (inr d) same (v, p) = (v, λ j. p j ∙ same j)

    visit_loop_lem :
        (fuel : ℕ) (c : Cache raw) (st : State) (kvs : List (K × V)) (o : Option Error)
        → IsCacheValid raw 0 c
        → Yields access st kvs o
        → length kvs < fuel
        → Returns (visit_loop raw access fuel c st) (Visited (last_of (value_at raw c) kvs) o)
    unfolding visit_loop Yields
    visit_loop_lem zero c st kvs o v y enough = absurd (omega (arith, enough))
    visit_loop_lem (suc fuel) c st [] none v (st', y) enough = (inr c, rw y refl, (v, λ j. refl))
    visit_loop_lem (suc fuel) c st [] (some e) v y enough = (inl e, rw y refl, refl)
    visit_loop_lem (suc fuel) c st ((k, x) ∷ kvs) o v (st', y, ys) enough =
        let (r, stored, p) = unbounded_insert raw c v k x in
        let (d, rest, q) = visit_loop_lem fuel r.0 st' kvs o p.valid ys (omega (arith, enough)) in
        (
          d,
          rw y (rw stored rest),
          Visited-congr _ _ o d (last_of-congr raw (value_at raw r.0) _ kvs p.map) q,
        )

    -- `visit_map`, on at least one and at most 2 ^ 59 threads and on fuel of one more than there
    -- are entries, does not panic. If the access fails after some entries, it returns that error.
    -- If the access gives all entries and ends, it returns a well-formed unbounded cache that
    -- holds, for each key, the value of its last entry, and no other key.
    pub visit_map-Visited :
        (parallelism fuel : ℕ) (st : State) (kvs : List (K × V)) (o : Option Error)
        → 0 < parallelism
        → parallelism * 16 ≤ 2 ^ 63
        → Yields access st kvs o
        → length kvs < fuel
        → Returns (visit_map raw access parallelism fuel st) (Visited (last_of (λ j. none) kvs) o)
    unfolding visit_map
    visit_map-Visited parallelism fuel st kvs o some_thread few y enough =
        let (c, built, valid, empty) = with_hasher-IsCacheValid raw parallelism some_thread few in
        let (r, run, p) = visit_loop_lem fuel c st kvs o valid y enough in
        (
          r,
          ground (arith, built, run),
          Visited-congr _ _ o r (last_of-congr raw (value_at raw c) (λ j. none) kvs empty) p,
        )

  restored :
      (access : MapAccess K V) (m : K → Option V) (code : Run (access.Error ⊎ Cache raw))
      → Returns code (Visited access m none)
      → (d : Cache raw) × (code ≡ ok (inr d))
        × IsCacheValid raw 0 d
        × ((j : K) → value_at raw d j ≡ m j)
  restored access m code (inl e, run, p) = absurd p
  restored access m code (inr d, run, (v, holds)) = (d, run, v, holds)

  module _ (serializer : Serializer K V) (access : MapAccess K V)
      (opened : serializer.Ok → access.State) (cap : ℕ) (c : Cache raw) where
    -- Round trip, for a serializer and a reader of its documents: on a well-formed cache, bounded
    -- or not, whose serialization, on fuel of one more than there are entries, makes a document. If
    -- the reader gives the pairs from which that document was made, in any order, and then ends,
    -- then deserialization, with the same fuel and on at least one and at most 2 ^ 59 threads,
    -- returns a well-formed unbounded cache that holds the same value at every key.
    pub serialize-visit_map :
        (fuel parallelism : ℕ) (doc : serializer.Ok)
        → IsCacheValid raw cap c
        → len raw c < fuel
        → 0 < parallelism
        → parallelism * 16 ≤ 2 ^ 63
        → serialize raw serializer fuel c ≡ ok (inr doc)
        → ((kvs : List (K × V))
            → document serializer kvs ≡ inr doc
            → (kvs' : List (K × V)) × Permᴰ kvs kvs' × Yields access (opened doc) kvs' none)
        → (d : Cache raw) × (visit_map raw access parallelism fuel (opened doc) ≡ ok (inr d))
          × IsCacheValid raw 0 d
          × ((j : K) → value_at raw d j ≡ value_at raw c j)
    unfolding len
    serialize-visit_map fuel parallelism doc v enough some_thread few wrote reads =
        let kvs = pairs_of raw c.shards in
        let once : IsOnce raw kvs = λ k.
          omega (arith, (pairs_exact raw cap c k v).1, to_nat_bit (is_some (value_at raw c k))) in
        let whole = serialize-document raw serializer c fuel enough in
        let (kvs', p, y) = reads kvs (ground (arith, whole, wrote)) in
        let (d, run, v', holds) = restored access _ _ (
          visit_map-Visited access parallelism fuel (opened doc) kvs' none some_thread few y
            (omega (arith, length-pairs_of raw c.shards, length-Perm p, enough))) in
        (
          d,
          run,
          v',
          λ j.
              holds j ∙ sym (last_of-Perm raw (λ i. none) j p once) ∙ (pairs_exact raw cap c j v).0,
        )
