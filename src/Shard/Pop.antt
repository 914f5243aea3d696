-- ===== src/Shard/Pop.antt =====
-- The stale-skipping loop at the front of a queue.
use neocache.Prelude.{
  ℕ, suc, ◌+◌, ◌≤◌, ◌≡◌, refl, ◌⊎◌, inl, inr, Bool, true, ◌&&◌, some, List, [], ◌∷◌, map, length,
  to_nat, eqb, arith, Option-cases, Bool-cases,
}
use neocache.Shard.{Item, hash_item, has_key, Popped, exhausted, live, pop_live}
use neocache.Shard.Invariant.{is_key, occ, occ-cons, occ-nil}
use neocache.Table.{Key, RawTable, weigh, weigh_mono}

module _ {K V : Type 0} ⦃key : Key K⦄ (raw : RawTable (Item K V) hash_item) where
  open raw use {Table, Bucket, elements, contents, find, find-none, find-some}

  -- A queue of keys that holds each key of a kind, and none of them, shows that there is none.
  pub none_left :
      (p : Item K V → Bool) (xs : List (Item K V))
      → ((j : K) → weigh (λ e. to_nat (key.beq e.0 j && p e)) xs ≡ 0)
      → weigh (λ e. to_nat (p e)) xs ≡ 0
  unfolding weigh
  none_left p [] h = refl
  none_left p (x ∷ xs) h =
      let rest = none_left p xs (λ j. omega (arith, h j)) in
      let self = (key.beq_iff x.0 x.0).1 refl in ground (arith, h x.0, rest, self)

  -- A lookup that misses shows that the key is not in the table.
  pub absent :
      (t : Table) (k : K)
      → weigh (λ e. to_nat (eqb (hash_item e) (key.hash_one k) && has_key raw k e)) (elements t) ≡ 0
      → weigh (is_key k) (elements t) ≡ 0
  absent t k h = omega (arith, weigh_mono (is_key k) _ (elements t) (λ e. pointwise e), h)
    where
      pointwise :
          (e : Item K V)
          → is_key k e ≤ to_nat (eqb (hash_item e) (key.hash_one k) && has_key raw k e)
      pointwise e = elim (Bool-cases (key.beq e.0 k)) [
        | inl same ↦ rw same (rw ((key.beq_iff e.0 k).0 same) (ground arith))
        | inr other ↦ rw other (ground arith)
      ]

  -- Skipping stale keys loses no key of the table: a key is absent, or keeps its count.
  abbrev pub Pops : Table → List K → Popped K Bucket → Type 0
  Pops t keys (exhausted hs ks) =
      (hs ≡ map key.hash_one ks)
      × ((j : K) → (weigh (is_key j) (elements t) ≡ 0) ⊎ (occ j keys ≡ 0))
  Pops t keys (live h k b hs ks) =
      (hs ≡ map key.hash_one ks)
      × (h ≡ key.hash_one k)
      × (suc (length ks) ≤ length keys)
      × ((e : Item K V) × (contents t b ≡ some e) × (key.beq e.0 k ≡ true))
      × ((j : K)
          → (weigh (is_key j) (elements t) ≡ 0) ⊎ (occ j keys ≡ to_nat (key.beq k j) + occ j ks))

  either :
      (t : Table) (j k : K) (ks : List K) (n : ℕ)
      → weigh (is_key k) (elements t) ≡ 0
      → (weigh (is_key j) (elements t) ≡ 0) ⊎ (occ j ks ≡ n)
      → (weigh (is_key j) (elements t) ≡ 0) ⊎ (occ j (k ∷ ks) ≡ n)
  either t j k ks n stale (inl gone) = inl gone
  either t j k ks n stale (inr same) = elim (Bool-cases (key.beq k j)) [
    | inl here ↦ inl (rw (← (key.beq_iff k j).0 here) stale)
    | inr other ↦ inr (rw (occ-cons j k ks, other) (omega (arith, same)))
  ]

  skip :
      (t : Table) (k : K) (ks : List K) (r : Popped K Bucket)
      → weigh (is_key k) (elements t) ≡ 0
      → Pops t ks r
      → Pops t (k ∷ ks) r
  skip t k ks (exhausted hs rest) stale (paired, gone) =
      (paired, λ j. either t j k ks 0 stale (gone j))
  skip t k ks (live h k' b hs rest) stale (paired, hash, shorter, found, kept) = (
    paired,
    hash,
    omega arith,
    found,
    λ j. either t j k ks (to_nat (key.beq k' j) + occ j rest) stale (kept j),
  )

  pub pop_live_lem : (t : Table) (ks : List K) → Pops t ks (pop_live raw t (map key.hash_one ks) ks)
  unfolding pop_live
  pop_live_lem t [] = (refl, λ j. inr (occ-nil j))
  pop_live_lem t (k ∷ ks) = elim (Option-cases (find t (key.hash_one k) (has_key raw k))) [
    | inl miss ↦ rw miss (
        skip t k ks _ (absent t k (find-none t (key.hash_one k) (has_key raw k) miss))
          (pop_live_lem t ks))
    | inr (b, hit) ↦ rw hit (
      refl,
      refl,
      omega arith,
      find-some t (key.hash_one k) (has_key raw k) b hit,
      λ j. inr (occ-cons j k ks),
    )
  ]

  pub pop_live-Pops :
      (t : Table) (hs : List ℕ) (ks : List K)
      → hs ≡ map key.hash_one ks
      → Pops t ks (pop_live raw t hs ks)
  pop_live-Pops t hs ks paired = rw paired (pop_live_lem t ks)

  -- A queue that ran out, and that held every stored key of a kind, shows that none is stored.
  pub drained :
      (t : Table) (keys : List K) (p : Item K V → Bool)
      → ((j : K) → weigh (λ e. to_nat (key.beq e.0 j && p e)) (elements t) ≤ occ j keys)
      → ((j : K) → (weigh (is_key j) (elements t) ≡ 0) ⊎ (occ j keys ≡ 0))
      → weigh (λ e. to_nat (p e)) (elements t) ≡ 0
  drained t keys p queued gone = none_left p (elements t) (λ j. omega (
    arith,
    queued j,
    gone j,
    weigh_mono (λ e. to_nat (key.beq e.0 j && p e)) (is_key j) (elements t) (λ e. ground arith),
  ))
