-- ===== src/MapRef/Guard/Attempt.antt =====
-- `RefMut::try_map` of src/mapref/one.rs on the guard that `get_mut` of src/lib.rs gives.
use mathlib.Core.Option
use neocache.Map.{get, get_mut, pair}
use neocache.Map.Read.{Looked, get-Looked, get_mut-eq-get}
use neocache.Map.Spec.{updated, updated_same}
use neocache.MapRef.Guard.{Place, read}
use neocache.MapRef.Guard.MappedRefMut
use neocache.MapRef.Guard.MappedRefMut.{MappedRefMut}
use neocache.MapRef.Guard.RefMut
use neocache.MapRef.Guard.Wrote.{with_value, Wrote, Looked-Wrote, tried, ref_try_map_lem}
use neocache.Prelude.{
  ◌≡◌, refl, ◌∙◌, ◌⊎◌, inl, inr, Option, none, some, Option-cases, Run, ok, ◌>>=◌, Returns, arith,
}
use neocache.Shard.{Item, hash_item, Shard}
use neocache.Shard.Invariant.{IsValid, IsWithin}
use neocache.Shard.Lookup.{lookup}
use neocache.Table.{Key, RawTable}

module _ {K V T : Type 0} ⦃key : Key K⦄ (raw : RawTable (Item K V) hash_item) where
  open raw use {Bucket}

  module _ (f : V → V × Option (Place V T)) where
    -- `try_map(f)` on the guard of `get_mut`, if there is one.
    pub try_map_at : Shard raw → K → Run (Shard raw × Option (Bucket ⊎ MappedRefMut Bucket V T))
    unfolding get_mut RefMut.try_map
    try_map_at s k = do
      (s', r) ← get_mut raw s k
      elim r [
        | none ↦ ok (s', none)
        | some b ↦ do x ← RefMut.try_map raw s' b f; ok (x.0, some x.1)
      ]

    -- The answer at a key with the value `o`: `Err` with the guard, which reads what the closure
    -- has left, exactly if the closure answers none; and `Ok` with a guard that reads the place of
    -- the closure's answer.
    abbrev pub Answers : Shard raw → Option V → Option (Bucket ⊎ MappedRefMut Bucket V T) → Type 0
    Answers s none r = r ≡ none
    Answers s (some x) none = ⊥
    Answers s (some x) (some (inl b)) = ((f x).1 ≡ none) × (RefMut.value raw s b ≡ ok (f x).0)
    Answers s (some x) (some (inr m)) =
        (p : Place V T) × ((f x).1 ≡ some p) × (MappedRefMut.value raw s m ≡ read (p.look (f x).0))

    -- The shard after the call, and its answer.
    pub record Attempted (s : Shard raw) (k : K)
        (r : Shard raw × Option (Bucket ⊎ MappedRefMut Bucket V T)) : Type 0 where
      pub valid : IsValid raw r.0
      pub within : IsWithin raw r.0
      pub cap : r.0.shard_cap ≡ s.shard_cap
      pub answers : Answers r.0 (lookup raw s.map k) r.1
      pub map :
          (j : K)
          → lookup raw r.0.map j
            ≡ updated (lookup raw s.map) k (Option.map (λ x. (f x).0) (lookup raw s.map k)) j

    answers_lem :
        (s t : Shard raw) (k : K) (b : Bucket) (e : Item K V) (x : V)
        → Wrote raw s k b e t
        → e.1.value ≡ (f x).0
        → Answers t (some x) (some (tried raw b (f x).1))
    unfolding RefMut.value MappedRefMut.value MappedRefMut.pair pair
    answers_lem s t k b e x w left = elim (Option-cases (f x).1) [
      | inl refused ↦ rw refused (refused, ground (arith, w.here, left))
      | inr (place, given) ↦ rw given (
        place,
        given,
        elim (Option-cases (place.look (f x).0)) [
          | inl miss ↦ ground (arith, w.here, left, miss)
          | inr (y, hit) ↦ ground (arith, w.here, left, hit)
        ],
      )
    ]

    module _ (s : Shard raw) (v : IsValid raw s) (within : IsWithin raw s) (k : K) where
      attempt_of :
          (r : Shard raw × Option Bucket)
          → get raw s k ≡ ok r
          → Looked raw s k r
          → Returns (try_map_at s k) (Attempted s k)
      unfolding try_map_at
      attempt_of (s', none) run l = (
        (s', none),
        ground (arith, run, get_mut-eq-get raw s v within k),
        record {
          valid = l.valid;
          within = l.within;
          cap = l.cap;
          answers = rw l.points refl;
          map = λ j. l.map j ∙ updated_same (lookup raw s.map) k _ (rw l.points) j;
        },
      )
      attempt_of (s', some b) run l =
          let (e, value, w) = Looked-Wrote raw s s' k b l in
          let (t, done, w') = ref_try_map_lem raw s k b e s' w f in
          let e' = with_value raw e (f e.1.value).0 in
          (
            (t, some (tried raw b (f e.1.value).1)),
            ground (arith, run, get_mut-eq-get raw s v within k, done),
            record {
              valid = w'.valid;
              within = w'.within;
              cap = w'.cap;
              answers = rw value (answers_lem s t k b e' e.1.value w' refl);
              map = λ j. w'.map j ∙ ground (arith, value);
            },
          )

      -- `try_map` on the guard of `get_mut`, on a well-formed shard within its capacity, returns,
      -- for any closure. If the key is stored, its value becomes what the closure leaves, and no
      -- other stored value changes. If the closure answers with no place, the call answers `Err`
      -- with the guard, which reads what the closure has left; if it answers with a place, `Ok`
      -- with a guard that reads that place there. If the key is not stored there is no guard and
      -- nothing changes. The shard stays well-formed within its capacity.
      pub try_map-Attempted : Returns (try_map_at s k) (Attempted s k)
      try_map-Attempted = let (r, run, l) = get-Looked raw s v within k in attempt_of r run l
