-- ===== src/Iter/Exact.antt =====
-- The pairs that an iterator gives, against the abstract map of the cache.
pub mod Last
pub mod Times
use neocache.Cache.{Cache, shard_at, len_of, len, is_empty}
use neocache.Cache.At.{shard_at-lt}
use neocache.Cache.Valid.{IsCacheValid, IsGood, index, value_at, value_at-ok}
use neocache.Cache.Whole.Fresh.{last_of}
use neocache.Iter.Every.{pair_of, pairs_of}
use neocache.Iter.Owning.{new, collect}
use neocache.Iter.Owning.Taken.{collect-all}
use neocache.Map
use neocache.Map.Read.{is_some}
use neocache.Map.Spec.{updated, updated_self, updated_ne}
use neocache.Prelude.{
  ◌↔◌, true, Option, ap, sym, ℕ, zero, suc, ◌+◌, ◌≤◌, ◌≡◌, ◌≢◌, refl, sym, ◌∙◌, ap, ◌⊎◌, inl, inr,
  Option, none, some, List, [], ◌∷◌, ◌++◌, map, length, ◌<◌, Returns, to_nat, Bool-cases,
  Option-cases, All, arith, ok,
}
use neocache.Shard.{Item, hash_item, Shard}
use neocache.Shard.Invariant.{is_key, IsValid}
use neocache.Shard.Lookup.{lookup, lookup-Shows, Shows-lookup, lookup-eq-none}
use neocache.Shard.Lookup.Change.{weigh-none}
use neocache.Table.{weigh, Key, RawTable, weigh, walk}
use neocache.Iter.Exact.Last.{over-none, last_of_home}
use neocache.Iter.Exact.Times.{times, times-home}

length-append : {A : Type 0} (xs ys : List A) → length (xs ++ ys) ≡ length xs + length ys
length-append [] ys = omega arith
length-append (x ∷ xs) ys = omega (arith, length-append xs ys)

length-map : {A B : Type 0} (f : A → B) (xs : List A) → length (map f xs) ≡ length xs
length-map f [] = refl
length-map f (x ∷ xs) = ap suc (length-map f xs)

module _ {K V : Type 0} ⦃key : Key K⦄ (raw : RawTable (Item K V) hash_item) where
  open raw use {Table, Bucket, elements, contents, iter, elements-iter, remove-elements}

  pub length-pairs_of : (ss : List (Shard raw)) → length (pairs_of raw ss) ≡ len_of raw ss
  unfolding len_of Map.len
  length-pairs_of [] = refl
  length-pairs_of (s ∷ ss) = omega (
    arith,
    length-append (map (pair_of raw) (raw.elements s.map)) (pairs_of raw ss),
    length-map (pair_of raw) (raw.elements s.map),
    length-pairs_of ss,
  )

  -- The pairs that an iterator gives on a well-formed cache hold each stored key once, with its
  -- value, and no other key.
  pub pairs_exact :
      (cap : ℕ) (c : Cache raw) (k : K)
      → IsCacheValid raw cap c
      → (last_of (λ j. none) (pairs_of raw c.shards) k ≡ value_at raw c k)
        × (times raw k (pairs_of raw c.shards) ≡ to_nat (is_some (value_at raw c k)))
  pairs_exact cap c k v =
      let i = index raw c k in
      let (s, here) = shard_at-lt c.shards i (v.selects (key.hash_one k)) in
      let home : (n : ℕ) (t : Shard raw)
          → shard_at c.shards n ≡ ok t
          → n ≢ i
          → lookup raw t.map k ≡ none =
        λ n t there away. v.home n t k there away in
      let at = value_at-ok raw c k s here in
      (
        last_of_home raw k cap c.shards i (λ j. none) s v.good here home
            ∙ over-none (lookup raw s.map k)
            ∙ sym at,
        times-home raw k cap c.shards i s v.good here home ∙ ap (λ x. to_nat (is_some x)) (sym at),
      )

  -- A loop over the owning iterator of a well-formed cache ends, on fuel of one more than there are
  -- entries. The pairs that it gives hold each stored key once, with its value, and no other key,
  -- and the cache that it owns is left without entries.
  pub collect-exact :
      (cap : ℕ) (c : Cache raw) (fuel : ℕ)
      → IsCacheValid raw cap c
      → len raw c < fuel
      → Returns (collect raw fuel (new raw c)) (λ r.
        ((k : K)
          → (last_of (λ j. none) r.1 k ≡ value_at raw c k)
            × (times raw k r.1 ≡ to_nat (is_some (value_at raw c k))))
        × (len raw r.0.map ≡ 0))
  unfolding len
  collect-exact cap c fuel v enough =
      let (r, run, (all, left)) =
        collect-all raw c fuel (omega (arith, enough, length-pairs_of c.shards)) in
      (r, run, (λ k. rw all (pairs_exact cap c k v), left))

  nothing_last :
      (ps : List (K × V))
      → length ps ≡ 0
      → (k : K) {x : Option V} → last_of (λ j. none) ps k ≡ x
      → x ≡ none
  nothing_last [] h k last = sym last
  nothing_last (p ∷ ps) h k last = absurd (omega (arith, h))

  no_pairs : (ps : List (K × V)) → ((k : K) → times raw k ps ≡ 0) → length ps ≡ 0
  unfolding weigh
  no_pairs [] absent = refl
  no_pairs (p ∷ ps) absent = absurd (ground (arith, absent p.0, (key.beq_iff p.0 p.0).1 refl))

  -- On a well-formed cache `is_empty` answers with `true` exactly if no key has a value.
  pub is_empty_iff :
      (cap : ℕ) (c : Cache raw)
      → IsCacheValid raw cap c
      → (is_empty raw c ≡ true) ↔ ((k : K) → value_at raw c k ≡ none)
  unfolding is_empty len weigh
  is_empty_iff cap c v =
      let count = length-pairs_of c.shards in
      (
        λ empty k.
            let nothing : length (pairs_of raw c.shards) ≡ 0 = ground (arith, count, empty) in
            nothing_last (pairs_of raw c.shards) nothing k (pairs_exact cap c k v).0,
        λ absent. ground (
          arith,
          count,
          no_pairs (pairs_of raw c.shards)
              (λ k. (pairs_exact cap c k v).1 ∙ ap (λ x. to_nat (is_some x)) (absent k)),
        ),
      )
