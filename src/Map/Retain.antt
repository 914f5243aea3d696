-- ===== src/Map/Retain.antt =====
-- `_retain` and `_alter_all` on one shard, against the abstract map.
use neocache.Map.{map_in_place, retain_one, retain, alter_all}
use neocache.Map.Each.{effect, Body, for_each-iter}
use neocache.Map.Spec.{Becomes}
use neocache.Map.Take.{released-Becomes}
use neocache.Map.Write.{write-Becomes}
use neocache.Map.Change.{released, released-IsWithin}
use neocache.Prelude.{
  refl, ◌∙◌, inl, inr, Bool, Option, none, some, arith, if◌then◌else◌, Bool-cases, Returns,
}
use neocache.Shard.{Item, hash_item, Shard}
use neocache.Shard.Evict.{low_freq}
use neocache.Shard.Invariant.{IsValid, IsWithin}
use neocache.Shard.Lookup.{lookup}
use neocache.Table.{Key, RawTable}

module _ {K V : Type 0} ⦃key : Key K⦄ (raw : RawTable (Item K V) hash_item) where
  open raw use {Bucket, contents, write, contents-write, contents-write_ne, contents-remove_ne}

  -- What the closure of `retain` makes of a value: the value it wrote, if it answers `true`.
  abbrev pub retained : (K → V → Bool × V) → K → V → Option V
  retained f j x = if (f j x).0 then some (f j x).1 else none

  retain_one-Body : (f : K → V → Bool × V) → Body raw (retain_one raw f) (retained f)
  unfolding retain_one
  retain_one-Body f t b e v within here =
      let y = (f e.0 e.1.value).1 in
      let h = record e.1 { value = y } in
      let s' : Shard raw = record t { map = write t.map b (e.0, h) } in
      let here' = contents-write t.map b e (e.0, h) here in
      let w =
        write-Becomes raw t v within e.0 b e here refl h refl
          (low_freq raw t.map b e here v.placed.calm) (tt {0}) in
      elim (Bool-cases (f e.0 e.1.value).0) [
        | inl stays ↦ (
          s',
          ground (arith, here, stays),
          (
            record {
              valid = w.valid;
              within = w.within;
              cap = w.cap;
              returns = refl;
              map = λ j. w.map j ∙ ground (arith, stays);
            },
            λ c other. contents-write_ne t.map b c (e.0, h) other,
          ),
        )
        | inr goes ↦
            let p = released-Becomes raw s' w.valid w.within e.0 b (e.0, h) here' refl (tt {0}) in
            let (_, _, map) = released-IsWithin raw s' w.valid b (e.0, h) here' e.1.loc w.within in
            (
              released raw s' w.valid b (e.0, h) here' e.1.loc,
              ground (arith, here, goes),
              (
                record {
                  valid = p.valid;
                  within = p.within;
                  cap = p.cap;
                  returns = refl;
                  map = λ j. p.map j ∙ ground (arith, goes, w.map j);
                },
                λ c other. rw map (
                    contents-remove_ne s'.map b c other
                    ∙ contents-write_ne t.map b c (e.0, h) other),
              ),
            )
      ]

  -- On a well-formed shard within its capacity `retain` returns. It drops exactly the entries that
  -- the closure refuses, and keeps each other with what the closure wrote, called once on the
  -- stored value; the shard stays well-formed within its capacity.
  pub retain-Becomes :
      (s : Shard raw) (f : K → V → Bool × V)
      → IsValid raw s
      → IsWithin raw s
      → Returns
          (retain raw s f)
          (λ u. Becomes raw s (λ j. effect (retained f) j (lookup raw s.map j)) tt (u, tt {0}))
  unfolding retain
  retain-Becomes s f v within =
      for_each-iter raw (retain_one raw f) (retained f) (retain_one-Body f) s v within

  map_in_place-Body :
      (f : K → V → V) → Body raw (λ t b. map_in_place raw t f b) (λ j x. some (f j x))
  unfolding map_in_place
  map_in_place-Body f t b e v within here =
      let h = record e.1 { value = f e.0 e.1.value } in
      (
        record t { map = write t.map b (e.0, h) },
        ground (arith, here),
        (
          write-Becomes raw t v within e.0 b e here refl h refl
              (low_freq raw t.map b e here v.placed.calm) (tt {0}),
          λ c other. contents-write_ne t.map b c (e.0, h) other,
        ),
      )

  -- On a well-formed shard within its capacity `alter_all` returns, with the closure applied to
  -- every stored value once and nothing dropped; the shard stays well-formed within its capacity.
  pub alter_all-Becomes :
      (s : Shard raw) (f : K → V → V)
      → IsValid raw s
      → IsWithin raw s
      → Returns (alter_all raw s f) (λ u.
        Becomes raw s (λ j. effect (λ i x. some (f i x)) j (lookup raw s.map j)) tt (u, tt {0}))
  unfolding alter_all
  alter_all-Becomes s f v within =
      for_each-iter raw (λ t b. map_in_place raw t f b) (λ j x. some (f j x)) (map_in_place-Body f)
        s v within
