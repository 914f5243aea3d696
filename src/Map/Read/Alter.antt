-- ===== src/Map/Read/Alter.antt =====
-- `_alter` of src/lib.rs against the abstract map.
use mathlib.Core.Option
use neocache.Map.{get, alter, map_in_place}
use neocache.Map.Spec.{Becomes, updated, updated_same}
use neocache.Map.Write.{write-Becomes}
use neocache.Prelude.{◌≡◌, refl, ◌∙◌, Option, none, some, arith, ok, Returns}
use neocache.Shard.{Item, hash_item, Shard}
use neocache.Shard.Evict.{low_freq}
use neocache.Shard.Invariant.{IsValid, IsWithin}
use neocache.Shard.Lookup.{lookup}
use neocache.Table.{Key, RawTable}
use neocache.Map.Read.{Looked, get-Looked, get_mut-eq-get}

module _ {K V : Type 0} ⦃key : Key K⦄ (raw : RawTable (Item K V) hash_item) where
  open raw use {Bucket, contents, write}

  module _ (s : Shard raw) (v : IsValid raw s) (within : IsWithin raw s) (k : K) where
    module _ (f : K → V → V) where
      alter_of :
          (r : Shard raw × Option Bucket)
          → get raw s k ≡ ok r
          → Looked raw s k r
          → Returns (alter raw s k f) (λ s'.
            Becomes raw s
              (updated (lookup raw s.map) k (Option.map (f k) (lookup raw s.map k)))
              tt
              (s', tt {0}))
      unfolding alter map_in_place
      alter_of (s', none) run l = (
        s',
        ground (arith, run, get_mut-eq-get raw s v within k),
        record {
          valid = l.valid;
          within = l.within;
          cap = l.cap;
          returns = refl;
          map = λ j. l.map j ∙ updated_same (lookup raw s.map) k _ (rw l.points) j;
        },
      )
      alter_of (s', some b) run l =
          let (e, here, same, value) = l.points in
          let w =
            write-Becomes raw s' l.valid l.within k b e here same
              (record e.1 { value = f e.0 e.1.value }) refl
              (low_freq raw s'.map b e here l.valid.placed.calm) tt in
          (
            record s' { map = write s'.map b (e.0, record e.1 { value = f e.0 e.1.value }) },
            ground (arith, run, get_mut-eq-get raw s v within k, here),
            record {
              valid = w.valid;
              within = w.within;
              cap = w.cap ∙ l.cap;
              returns = refl;
              map = λ j. w.map j ∙ ground (arith, value, same, l.map j);
            },
          )

      -- On a well-formed shard within its capacity `alter` returns and replaces the value of the
      -- key, if it is stored, by what the closure makes of it, and changes no other value; the
      -- shard stays well-formed.
      pub alter-Becomes : Returns (alter raw s k f) (λ s'.
          Becomes raw s
            (updated (lookup raw s.map) k (Option.map (f k) (lookup raw s.map k)))
            tt
            (s', tt {0}))
      alter-Becomes = let (r, run, l) = get-Looked raw s v within k in alter_of r run l
