-- ===== src/Iter/Exact/Times.antt =====
-- How often a key occurs in the pairs of the shards.
use neocache.Cache.{shard_at}
use neocache.Cache.Valid.{IsGood}
use neocache.Iter.Every.{pair_of, pairs_of}
use neocache.Map.Read.{is_some}
use neocache.Prelude.{
  ℕ, zero, suc, ◌+◌, ◌≤◌, ◌≡◌, ◌≢◌, refl, sym, inl, inr, none, List, [], ◌∷◌, ◌++◌, map, to_nat,
  Option-cases, All, arith, ok,
}
use neocache.Shard.{Item, hash_item, Shard}
use neocache.Shard.Invariant.{is_key}
use neocache.Shard.Lookup.{lookup, Shows-lookup}
use neocache.Shard.Lookup.Change.{weigh-none}
use neocache.Table.{Key, RawTable, weigh}
use neocache.Iter.Exact.Last.{Away}

module _ {K V : Type 0} ⦃key : Key K⦄ (raw : RawTable (Item K V) hash_item) where
  open raw use {Table, Bucket, elements, contents, iter, elements-iter, remove-elements}

  -- How often a key stands in a list of pairs.
  abbrev pub times : K → List (K × V) → ℕ
  times k = weigh (λ p. to_nat (key.beq p.0 k))

  module _ (k : K) where
    times-append : (ps qs : List (K × V)) → times k (ps ++ qs) ≡ times k ps + times k qs
    unfolding weigh
    times-append [] qs = omega arith
    times-append (p ∷ ps) qs = omega (arith, times-append ps qs)

    times-pairs : (es : List (Item K V)) → times k (map (pair_of raw) es) ≡ weigh (is_key k) es
    unfolding weigh
    times-pairs [] = refl
    times-pairs (e ∷ es) = omega (arith, times-pairs es)

    times-Away : (ss : List (Shard raw)) → Away raw k ss → times k (pairs_of raw ss) ≡ 0
    unfolding weigh shard_at
    times-Away [] away = refl
    times-Away (s ∷ ss) away = omega (
      arith,
      times-append (map (pair_of raw) (elements s.map)) (pairs_of raw ss),
      times-pairs (elements s.map),
      weigh-none raw s.map k (away 0 s refl),
      times-Away ss (λ i u there. away (suc i) u there),
    )

    present :
        (t : Table)
        → weigh (is_key k) (elements t) ≤ 1
        → weigh (is_key k) (elements t) ≡ to_nat (is_some (lookup raw t k))
    present t once = elim (Option-cases (lookup raw t k)) [
      | inl miss ↦ rw miss (weigh-none raw t k miss)
      | inr (v, hit) ↦
          let (b, e, here, same, _) = Shows-lookup raw t k v hit in
          let some_there : 1 ≤ weigh (is_key k) (elements t) =
            ground (arith, remove-elements t b e (is_key k) here, (key.beq_iff e.0 k).1 same) in
          rw hit (omega (arith, some_there, once))
    ]

    pub times-home :
        (cap : ℕ) (ss : List (Shard raw)) (h : ℕ) (t : Shard raw)
        → All (IsGood raw cap) ss
        → shard_at ss h ≡ ok t
        → ((i : ℕ) (s : Shard raw) → shard_at ss i ≡ ok s → i ≢ h → lookup raw s.map k ≡ none)
        → times k (pairs_of raw ss) ≡ to_nat (is_some (lookup raw t.map k))
    unfolding shard_at
    times-home cap [] h t good here home = absurd (ground arith)
    times-home cap (s ∷ ss) zero t ((valid, _, _), good) here home =
        let is : s ≡ t = ground (arith, here) in
        rw (sym is) (
          omega (
            arith,
            times-append (map (pair_of raw) (elements s.map)) (pairs_of raw ss),
            times-pairs (elements s.map),
            present s.map (valid.placed.unique k),
            times-Away ss (λ i u there. home (suc i) u there (omega arith)),
          ))
    times-home cap (s ∷ ss) (suc h) t (_, good) here home = omega (
      arith,
      times-append (map (pair_of raw) (elements s.map)) (pairs_of raw ss),
      times-pairs (elements s.map),
      weigh-none raw s.map k (home 0 s refl (omega arith)),
      times-home cap ss h t good here
          (λ i u there other. home (suc i) u there (omega (arith, other))),
    )
