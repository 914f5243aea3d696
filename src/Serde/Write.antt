-- ===== src/Serde/Write.antt =====
-- What `serialize` writes: the number of entries, then every pair of the cache.
use neocache.Cache.{Cache, len_of, len}
use neocache.Iter.{Iter, new, next}
use neocache.Iter.Every.{pairs_of, remaining, IsNext, next-IsNext}
use neocache.Iter.Exact.{length-pairs_of}
use neocache.Prelude.{
  ℕ, zero, suc, ◌≤◌, ◌<◌, ◌≡◌, refl, ◌∙◌, ap, ◌⊎◌, inl, inr, Option, none, some, List, [], ◌∷◌,
  length, Run, ok, arith,
}
use neocache.Serde.{Serializer, attempt, serialize_loop, serialize}
use neocache.Shard.{Item, hash_item}
use neocache.Table.{Key, RawTable}

-- The `?` operator in code that has no faults.
abbrev pub and_then : {E A B : Type 0} → E ⊎ A → (A → E ⊎ B) → E ⊎ B
and_then (inl e) next = inl e
and_then (inr x) next = next x

attempt_lem :
    {E A B : Type 0} (x : E ⊎ A) (f : A → Run (E ⊎ B)) (g : A → E ⊎ B)
    → ((y : A) → f y ≡ ok (g y))
    → attempt x f ≡ ok (and_then x g)
attempt_lem (inl e) f g same = refl
attempt_lem (inr y) f g same = same y

module _ {K V : Type 0} (serializer : Serializer K V) where
  open serializer use {State, Error, Ok, serialize_map, serialize_entry, end}

  -- The calls of the serializer for a list of pairs, up to the first that fails.
  unfoldable pub written : List (K × V) → State → Error ⊎ Ok
  written [] st = end st
  written ((k, v) ∷ kvs) st = and_then (serialize_entry st k v) (written kvs)

  unfoldable pub document : List (K × V) → Error ⊎ Ok
  unfolding written
  document kvs = and_then (serialize_map (length kvs)) (written kvs)

module _ {K V : Type 0} ⦃key : Key K⦄ (raw : RawTable (Item K V) hash_item) where
  module _ (serializer : Serializer K V) (c : Cache raw) where
    open serializer use {State, Error, Ok, serialize_map, serialize_entry, end}

    -- What is claimed of the loop.
    abbrev Writes : ℕ → Iter (Item K V) → State → Type 0
    Writes fuel it st =
        serialize_loop raw serializer fuel c it st ≡ ok (written serializer (remaining raw c it) st)

    loop_step :
        (fuel : ℕ) (it : Iter (Item K V)) (st : State) (r : Iter (Item K V) × Option (K × V))
        → next raw c it ≡ ok r
        → IsNext raw c it r
        → ((st' : State)
            → length (remaining raw c r.0) < length (remaining raw c it)
            → Writes fuel r.0 st')
        → Writes (suc fuel) it st
    unfolding serialize_loop written
    loop_step fuel it st (it', none) run p later = rw (run, p) refl
    loop_step fuel it st (it', some (k, v)) run p later =
        let go : serialize_loop raw serializer (suc fuel) c it st
            ≡ attempt (serialize_entry st k v)
                (λ map. serialize_loop raw serializer fuel c it' map) =
          rw run refl in
        go
        ∙ rw p (
            attempt_lem (serialize_entry st k v) _ (written serializer (remaining raw c it'))
              (λ st'. later st' (omega (arith, ap length p))))

    loop_lem :
        (fuel : ℕ) (it : Iter (Item K V)) (st : State)
        → it.shard_i ≤ length c.shards
        → length (remaining raw c it) < fuel
        → Writes fuel it st
    loop_lem zero it st within enough = absurd (omega (arith, enough))
    loop_lem (suc fuel) it st within enough =
        let (r, run, (p, within')) = next-IsNext raw c it within in
        loop_step fuel it st r run p
          (λ st' less. loop_lem fuel r.0 st' within' (omega (arith, enough, less)))

    -- `serialize`, on fuel of one more than there are entries, does what the serializer does when
    -- it is told the number of pairs and then given each pair that an iterator gives, in its order:
    -- the first method that fails ends it with that error.
    pub serialize-document :
        (fuel : ℕ)
        → len raw c < fuel
        → serialize raw serializer fuel c ≡ ok (document serializer (pairs_of raw c.shards))
    unfolding serialize document len
    serialize-document fuel enough =
        let count = length-pairs_of raw c.shards in
        rw count (
          attempt_lem (serialize_map (len_of raw c.shards)) _ _
            (λ st. loop_lem fuel (new raw) st (omega arith) (omega (arith, count, enough))))
