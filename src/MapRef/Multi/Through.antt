-- ===== src/MapRef/Multi/Through.antt =====
-- Reading and writing through the guards of an iterator, against the abstract map.
use neocache.Cache.{Cache, shard_at, put_shard, on_shard}
use neocache.Cache.At.{shard_at-put_self, shard_at_bound, shard_at-All}
use neocache.Cache.Refine.{CacheBecomes, Effect, Effect-AddsOnly, Worked-CacheBecomes}
use neocache.Cache.Valid.{
  AddsOnly, IsCacheValid, IsGood, index, value_at, value_at-ok, on_shard-Worked,
}
use neocache.Map
use neocache.Map.Spec.{updated}
use neocache.Map.Write.{write-Becomes}
use neocache.MapRef.Multi.{mut_new, mut_pair, set_value}
use neocache.Prelude.{ℕ, ◌≡◌, refl, sym, ◌∙◌, some, ok, ◌>>=◌, Returns, arith}
use neocache.Shard.{Item, hash_item, Shard}
use neocache.Shard.Evict.{low_freq}
use neocache.Shard.Lookup.{lookup, lookup-Shows}
use neocache.Table.{Key, RawTable}
use native.Mathlib.Decide.{ℕ_discrete}

module _ {K V : Type 0} ⦃key : Key K⦄ (raw : RawTable (Item K V) hash_item) where
  open raw use {Bucket, contents, write, contents-write}

  -- The bucket `b` of the shard at `i` holds the entry `e`.
  abbrev pub Holds : Cache raw → ℕ → Bucket → Item K V → Type 0
  Holds c i b e = (s : Shard raw) × (shard_at c.shards i ≡ ok s) × (contents s.map b ≡ some e)

  module _ (cap : ℕ) (c : Cache raw) (v : IsCacheValid raw cap c) (i : ℕ) (b : Bucket)
      (e : Item K V) (holds : Holds c i b e) where
    abbrev shard : Shard raw
    shard = holds.0

    good : IsGood raw cap shard
    good = shard_at-All (IsGood raw cap) c.shards i shard v.good holds.1

    shown : lookup raw shard.map e.0 ≡ some e.1.value
    shown =
        lookup-Shows raw shard.map e.0 e.1.value (good.0.placed.unique e.0)
          (b, e, holds.2, refl, refl)

    -- The shard is that of the key.
    own : index raw c e.0 ≡ i
    own = elim (ℕ_discrete i (index raw c e.0)) [
      | yes same ↦ sym same
      | no away ↦ absurd (ground (arith, shown, v.home i shard e.0 holds.1 away))
    ]

    pub Holds-value_at : value_at raw c e.0 ≡ some e.1.value
    Holds-value_at = value_at-ok raw c e.0 shard (rw own holds.1) ∙ shown

    module _ (x : V) where
      abbrev next : Shard raw
      next = record shard { map = write shard.map b (e.0, record e.1 { value = x }) }

      abbrev Assigned : Shard raw → Type 0
      Assigned s =
          Effect raw cap c v e.0 (λ y. some x) (λ y. tt) s (next, tt {0})
          × IsGood raw s.shard_cap next
          × AddsOnly raw e.0 s next

      assigned : Assigned shard
      assigned =
          let p : Effect raw cap c v e.0 (λ y. some x) (λ y. tt) shard (next, tt {0}) =
            write-Becomes raw shard good.0 good.1 e.0 b e holds.2 refl (record e.1 { value = x })
              refl (low_freq raw shard.map b e holds.2 good.0.placed.calm) tt in
          (
            p,
            (p.valid, p.within, p.cap),
            Effect-AddsOnly raw cap c v e.0 (λ y. some x) (λ y. tt) shard (next, tt) p,
          )

      abbrev put : Cache raw
      put = record c { shards = put_shard c.shards i next }

      put-CacheBecomes :
          CacheBecomes raw cap (updated (value_at raw c) e.0 (some x)) tt (put, tt {0})
      unfolding on_shard
      put-CacheBecomes =
          let (r, run, w) =
            on_shard-Worked raw cap c e.0 (λ s. ok (next, tt))
              (Effect raw cap c v e.0 (λ y. some x) (λ y. tt))
              (λ s here valid within at.
                let is : shard ≡ s = ground (arith, rw own at here, holds.1) in
                ((next, tt), refl, rw (← is) assigned))
              v in
          let same : (put, tt {0}) ≡ r = ground (arith, run, own, holds.1) in
          rw same (Worked-CacheBecomes raw cap c v e.0 (λ y. some x) (λ y. tt) r w)

      -- On a well-formed cache, with the guard of an entry that an iterator gave: `pair` answers
      -- with the entry's key and the value that the cache has at that key. An assignment through
      -- the guard replaces that value and no other, the cache stays well-formed, and `pair` then
      -- answers with the key and the new value.
      pub multi_assign :
          Returns {R = (K × V) × (Cache raw × (K × V))}
            (do
              was ← mut_pair raw c (mut_new raw i b)
              d ← set_value raw c (mut_new raw i b) x
              now ← mut_pair raw d (mut_new raw i b)
              ok (was, (d, now)))
            (λ r.
              (value_at raw c e.0 ≡ some r.0.1)
              × (r.0.0 ≡ e.0)
              × CacheBecomes raw cap (updated (value_at raw c) e.0 (some x)) (e.0, x) r.1)
      unfolding mut_pair set_value Map.pair
      multi_assign =
          let p = put-CacheBecomes in
          let back = shard_at-put_self c.shards i next (shard_at_bound c.shards i shard holds.1) in
          let there = contents-write shard.map b e (e.0, record e.1 { value = x }) holds.2 in
          (
            ((e.0, e.1.value), (put, (e.0, x))),
            ground (arith, holds.1, holds.2, back, there),
            (Holds-value_at, refl, record { valid = p.valid; returns = refl; map = p.map }),
          )
