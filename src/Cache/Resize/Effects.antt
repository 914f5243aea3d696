-- ===== src/Cache/Resize/Effects.antt =====
-- Resizing against the abstract map of the cache.
use neocache.Cache.{Cache, shard_at}
use neocache.Cache.Refine.{CacheBecomes}
use neocache.Cache.Resize.{map_try_reserve, reserve_shards, try_reserve}
use neocache.Cache.Valid.{IsCacheValid, IsGood, value_at}
use neocache.Cache.Whole.Effects.{At-cons, Each, Each-CacheBecomes}
use neocache.Map
use neocache.Map.Change.{moved-IsValid}
use neocache.Map.Spec.{Becomes}
use neocache.Prelude.{
  if◌then◌else◌, zero, ℕ, suc, ◌∙◌, ◌≡◌, refl, ap, Bool, true, ◌&&◌, Bool-cases, inl, inr, some,
  List, [], ◌∷◌, All, ok, arith,
}
use neocache.Shard.{Item, hash_item, Shard}
use neocache.Shard.Invariant.{IsValid, IsWithin}
use neocache.Shard.Lookup.{lookup}
use neocache.Shard.Lookup.Change.{lookup_congr}
use neocache.Table.{Key, RawTable, weigh}

abbrev pub take : {A : Type 0} → ℕ → List A → List A
take zero xs = []
take (suc n) [] = []
take (suc n) (x ∷ xs) = x ∷ take n xs

module _ {K V : Type 0} ⦃key : Key K⦄ (raw : RawTable (Item K V) hash_item) where
  open raw use {
    Table, Bucket, elements, contents, shrink-elements, shrink-contents, contents-shrink,
    reserve-elements, reserve-contents, contents-reserve,
  }

  -- A table that has moved its elements to other buckets.
  moved-Becomes :
      {R : Type 0} (s : Shard raw) (t : Table) (answer : R)
      → IsValid raw s
      → IsWithin raw s
      → ((w : Item K V → ℕ) → weigh w (elements t) ≡ weigh w (elements s.map))
      → ((b : Bucket) (e : Item K V)
          → contents t b ≡ some e
          → (c : Bucket) × (contents s.map c ≡ some e))
      → ((c : Bucket) (e : Item K V)
          → contents s.map c ≡ some e
          → (b : Bucket) × (contents t b ≡ some e))
      → Becomes raw s (lookup raw s.map) answer (record s { map = t }, answer)
  moved-Becomes s t answer v within same back forth =
      let v' = moved-IsValid raw s v t same in
      record {
        valid = v';
        within = within;
        cap = refl;
        returns = refl;
        map = λ j.
            lookup_congr raw s.map t j (v.placed.unique j) (v'.placed.unique j)
              (λ x (b, e, at, is, value). let (c, at') = back b e at in (c, e, at', is, value))
              (λ x (c, e, at, is, value). let (b, at') = forth c e at in (b, e, at', is, value));
      }

  map_try_reserve-Becomes :
      (s : Shard raw) (n : ℕ)
      → IsValid raw s
      → IsWithin raw s
      → Becomes raw s (lookup raw s.map) (map_try_reserve raw s n).1 (map_try_reserve raw s n)
  unfolding map_try_reserve
  map_try_reserve-Becomes s n v within =
      moved-Becomes s _ _ v within (reserve-elements s.map n) (reserve-contents s.map n)
        (contents-reserve s.map n)

  -- Every shard's table finds the room.
  abbrev pub all_reserve : ℕ → List (Shard raw) → Bool
  all_reserve n [] = true
  all_reserve n (s ∷ ss) = (raw.try_reserve s.map n).1 && all_reserve n ss

  same_shards :
      (cap : ℕ) (ss : List (Shard raw)) → All (IsGood raw cap) ss → Each raw cap (λ j x. x) ss ss
  same_shards cap ss good = record {
    good = good;
    count = refl;
    at = λ i s here. (s, here, λ j. refl);
  }

  Each-cons :
      (cap : ℕ) (ss ts : List (Shard raw)) (s : Shard raw) (r : Shard raw × Bool)
      → IsGood raw cap s
      → Becomes raw s (lookup raw s.map) r.1 r
      → Each raw cap (λ j x. x) ss ts
      → Each raw cap (λ j x. x) (s ∷ ss) (r.0 ∷ ts)
  Each-cons cap ss ts s r (_, _, is_cap) p e = record {
    good = ((p.valid, p.within, p.cap ∙ is_cap), e.good);
    count = ap suc e.count;
    at = At-cons raw (λ j x. x) ss ts s r.0 p.map e.at;
  }

  reserve_shards_lem :
      (cap n : ℕ) (ss : List (Shard raw))
      → All (IsGood raw cap) ss
      → Each raw cap (λ j x. x) ss (reserve_shards raw n ss).0
        × ((reserve_shards raw n ss).1 ≡ all_reserve n ss)
  unfolding reserve_shards map_try_reserve
  reserve_shards_lem cap n [] good = (same_shards cap [] good, refl)
  reserve_shards_lem cap n (s ∷ ss) ((valid, within, is_cap), good) =
      let p = map_try_reserve-Becomes s n valid within in
      let (e, all) = reserve_shards_lem cap n ss good in
      let here : IsGood raw cap s = (valid, within, is_cap) in
      elim (Bool-cases (raw.try_reserve s.map n).1) [
        | inl done ↦ rw done (Each-cons cap ss _ s _ here p e, all)
        | inr failed ↦ rw failed (Each-cons cap ss ss s _ here p (same_shards cap ss good), refl)
      ]

  -- A shard of `ts` is that of `ss` at its index: with the room reserved, if the tables of all the
  -- shards before it find the room, and otherwise as it was.
  abbrev pub Reserved : ℕ → List (Shard raw) → List (Shard raw) → Type 0
  Reserved n ss ts =
      (i : ℕ) (s : Shard raw)
      → shard_at ss i ≡ ok s
      → shard_at ts i ≡ ok (if all_reserve n (take i ss) then (map_try_reserve raw s n).0 else s)

  reserve_shards-Reserved :
      (n : ℕ) (ss : List (Shard raw)) → Reserved n ss (reserve_shards raw n ss).0
  unfolding reserve_shards shard_at map_try_reserve
  reserve_shards-Reserved n [] i s here = ground (arith, here)
  reserve_shards-Reserved n (x ∷ xs) zero s here = elim (Bool-cases (raw.try_reserve x.map n).1) [
    | inl done ↦ ground (arith, here, done)
    | inr failed ↦ ground (arith, here, failed)
  ]
  reserve_shards-Reserved n (x ∷ xs) (suc i) s here =
      let rest = reserve_shards-Reserved n xs i s here in
      elim (Bool-cases (raw.try_reserve x.map n).1) [
        | inl done ↦ ground (arith, rest, done)
        | inr failed ↦ ground (arith, here, failed)
      ]

  -- `try_reserve` on a well-formed cache answers with `Ok` exactly if the table of every shard
  -- finds the room. In both cases the cache stays well-formed and every stored value is as it was.
  -- The table of a shard is asked to reserve exactly if the tables of all shards before it find the
  -- room; the shards after the first one that fails are left as they were.
  pub try_reserve-Becomes :
      (cap : ℕ) (c : Cache raw) (additional : ℕ)
      → IsCacheValid raw cap c
      → CacheBecomes raw cap
          (value_at raw c)
          (all_reserve additional c.shards)
          (try_reserve raw c additional)
        × Reserved additional c.shards (try_reserve raw c additional).0.shards
  unfolding try_reserve
  try_reserve-Becomes cap c additional v =
      let (e, all) = reserve_shards_lem cap additional c.shards v.good in
      let p = Each-CacheBecomes raw cap (λ j x. x) c _ v (λ j. refl) e in
      (
        record { valid = p.valid; returns = all; map = p.map },
        reserve_shards-Reserved additional c.shards,
      )
