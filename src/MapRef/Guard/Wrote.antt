-- ===== src/MapRef/Guard/Wrote.antt =====
-- Writes through the guards `RefMut` and `MappedRefMut` of src/mapref/one.rs to one stored entry.
use neocache.Map.{pair}
use neocache.Map.Read.{Looked}
use neocache.Map.Spec.{updated, updated_same, updated_twice}
use neocache.Map.Write.{write-Becomes}
use neocache.MapRef.Guard.{Place, inner}
use neocache.MapRef.Guard.MappedRefMut
use neocache.MapRef.Guard.MappedRefMut.{MappedRefMut}
use neocache.MapRef.Guard.RefMut
use neocache.Prelude.{
  Option-cases, Option, none, inl, inr, ◌⊎◌, ◌≡◌, refl, ◌∙◌, ap, some, ok, if◌then◌else◌, Returns,
  arith,
}
use neocache.Shard.{Item, hash_item, Shard}
use neocache.Shard.Evict.{low_freq}
use neocache.Shard.Invariant.{IsValid, IsWithin}
use neocache.Shard.Lookup.{lookup}
use neocache.Table.{Key, RawTable}

module _ {K V : Type 0} ⦃key : Key K⦄ (raw : RawTable (Item K V) hash_item) where
  open raw use {Bucket, contents, write, contents-write}

  abbrev pub with_value : Item K V → V → Item K V
  with_value e x = (e.0, record e.1 { value = x })

  -- `t` is the shard `s` after writes to the bucket `b` of the key `k`, which holds `e` now.
  pub record Wrote (s : Shard raw) (k : K) (b : Bucket) (e : Item K V) (t : Shard raw)
      : Type 0 where
    pub valid : IsValid raw t
    pub within : IsWithin raw t
    pub cap : t.shard_cap ≡ s.shard_cap
    pub here : contents t.map b ≡ some e
    pub same : e.0 ≡ k
    pub map : (j : K) → lookup raw t.map j ≡ updated (lookup raw s.map) k (some e.1.value) j

  -- The guard that a lookup gives.
  pub Looked-Wrote :
      (s s' : Shard raw) (k : K) (b : Bucket)
      → Looked raw s k (s', some b)
      → (e : Item K V) × (lookup raw s.map k ≡ some e.1.value) × Wrote s k b e s'
  Looked-Wrote s s' k b l =
      let (e, here, same, value) = l.points in
      (
        e,
        value,
        record {
          valid = l.valid;
          within = l.within;
          cap = l.cap;
          here = here;
          same = same;
          map = λ j. l.map j ∙ updated_same (lookup raw s.map) k _ value j;
        },
      )

  -- What `try_map` answers from what its closure answers.
  abbrev pub tried : {T : Type 0} → Bucket → Option (Place V T) → Bucket ⊎ MappedRefMut Bucket V T
  tried b none = inl b
  tried b (some place) = inr (record { bucket = b; place = place })

  module _ (s : Shard raw) (k : K) (b : Bucket) (e : Item K V) (t : Shard raw)
      (w : Wrote s k b e t) where
    abbrev put_value : V → Shard raw
    put_value x = record t { map = write t.map b (with_value e x) }

    put_value-Wrote : (x : V) → Wrote s k b (with_value e x) (put_value x)
    put_value-Wrote x =
        let low = low_freq raw t.map b e w.here w.valid.placed.calm in
        let y = record e.1 { value = x } in
        let p = write-Becomes raw t w.valid w.within k b e w.here w.same y refl low tt in
        record {
          valid = p.valid;
          within = p.within;
          cap = p.cap ∙ w.cap;
          here = contents-write t.map b e (with_value e x) w.here;
          same = w.same;
          map = λ j.
              p.map j
              ∙ ap (λ o. if key.beq j k then some x else o) (w.map j)
              ∙ updated_twice (lookup raw s.map) k (some e.1.value) (some x) j;
        }

    pub ref_map_lem :
        {T : Type 0} (f : V → V × Place V T)
        → (t' : Shard raw) × (RefMut.map raw t b f
            ≡ ok (t', record { bucket = b; place = (f e.1.value).1 }))
          × Wrote s k b (with_value e (f e.1.value).0) t'
    unfolding RefMut.map RefMut.value RefMut.set_value pair
    ref_map_lem f =
        (put_value (f e.1.value).0, ground (arith, w.here), put_value-Wrote (f e.1.value).0)

    pub ref_try_map_lem :
        {T : Type 0} (f : V → V × Option (Place V T))
        → (t' : Shard raw) × (RefMut.try_map raw t b f ≡ ok (t', tried b (f e.1.value).1))
          × Wrote s k b (with_value e (f e.1.value).0) t'
    unfolding RefMut.try_map RefMut.value RefMut.set_value pair
    ref_try_map_lem f =
        let t' = put_value (f e.1.value).0 in
        let w' = put_value-Wrote (f e.1.value).0 in
        elim (Option-cases (f e.1.value).1) [
          | inl refused ↦ (t', ground (arith, w.here, refused), w')
          | inr (place, given) ↦ (t', ground (arith, w.here, given), w')
        ]

    module _ {T : Type 0} (place : Place V T) (x : T) (at_x : place.look e.1.value ≡ some x) where
      abbrev guard : MappedRefMut Bucket V T
      guard = record { bucket = b; place = place }

      pub mapped_value_lem : MappedRefMut.value raw t guard ≡ ok x
      unfolding MappedRefMut.value MappedRefMut.pair
      mapped_value_lem = ground (arith, w.here, at_x)

      pub mapped_set_lem :
          (y : T)
          → Returns
              (MappedRefMut.set_value raw t guard y)
              (Wrote s k b (with_value e (place.put e.1.value y)))
      unfolding MappedRefMut.set_value MappedRefMut.pair
      mapped_set_lem y = (
        put_value (place.put e.1.value y),
        ground (arith, w.here, at_x),
        put_value-Wrote (place.put e.1.value y),
      )

      pub mapped_map_lem :
          {U : Type 0} (g : T → T × Place T U)
          → (t' : Shard raw) × (MappedRefMut.map raw t guard g
              ≡ ok (t', record { bucket = b; place = inner place (g x).1 }))
            × Wrote s k b (with_value e (place.put e.1.value (g x).0)) t'
      unfolding MappedRefMut.map
      mapped_map_lem g =
          let (t', run, w') = mapped_set_lem (g x).0 in
          (t', ground (arith, mapped_value_lem, run), w')
