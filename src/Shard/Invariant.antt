-- ===== src/Shard/Invariant.antt =====
-- The well-formedness of a shard, in sums over its table and counts in its queues. The live
-- counters may drift from the entries that they count; the invariant bounds how far.
use neocache.Prelude.{
  ℕ, ◌+◌, ◌-◌, ◌≤◌, ◌<◌, ◌≡◌, refl, not, ◌&&◌, some, List, [], ◌∷◌, ◌++◌, map, length, to_nat,
  arith,
}
use neocache.Entry.{is_small, max_freq}
use neocache.Shard.{Item, hash_item, Shard}
use neocache.Table.{Key, RawTable, weigh}

module _ {K V : Type 0} ⦃key : Key K⦄ where
  -- Weights of an item.
  abbrev pub is_key : K → Item K V → ℕ
  is_key k e = to_nat (key.beq e.0 k)

  abbrev pub in_small : K → Item K V → ℕ
  in_small k e = to_nat (key.beq e.0 k && is_small e.1.loc)

  abbrev pub in_main : K → Item K V → ℕ
  in_main k e = to_nat (key.beq e.0 k && not (is_small e.1.loc))

  abbrev pub small_weight : Item K V → ℕ
  small_weight e = to_nat (is_small e.1.loc)

  abbrev pub main_weight : Item K V → ℕ
  main_weight e = to_nat (not (is_small e.1.loc))

  abbrev pub one : Item K V → ℕ
  one e = 1

  abbrev pub over : Item K V → ℕ
  over e = e.1.freq - max_freq

  -- A weight of what a user sees of an item.
  abbrev pub seen : (K → V → ℕ) → Item K V → ℕ
  seen w e = w e.0 e.1.value

module _ {K : Type 0} ⦃key : Key K⦄ where
  -- How often a key stands in a queue.
  unfoldable pub occ : K → List K → ℕ
  occ k [] = 0
  occ k (x ∷ xs) = to_nat (key.beq x k) + occ k xs

  pub occ-push : (j k : K) (ks : List K) → occ j (ks ++ k ∷ []) ≡ occ j ks + to_nat (key.beq k j)
  unfolding occ
  occ-push j k [] = omega arith
  occ-push j k (x ∷ ks) = omega (arith, occ-push j k ks)

  pub occ-cons : (j k : K) (ks : List K) → occ j (k ∷ ks) ≡ to_nat (key.beq k j) + occ j ks
  unfolding occ
  occ-cons j k ks = refl

  pub occ-nil : (j : K) → occ j [] ≡ 0
  unfolding occ
  occ-nil j = refl

module _ {K V : Type 0} ⦃key : Key K⦄ (raw : RawTable (Item K V) hash_item) where
  open raw use {Table, Bucket, InsertSlot, Fits, elements, contents}

  -- A key is stored once, and stands in the queue of its `loc`; no frequency passes the cap.
  pub record IsPlaced (t : Table) (small_keys main_keys : List K) : Type 0 where
    pub unique : (k : K) → weigh (is_key k) (elements t) ≤ 1
    pub queued_small : (k : K) → weigh (in_small k) (elements t) ≤ occ k small_keys
    pub queued_main : (k : K) → weigh (in_main k) (elements t) ≤ occ k main_keys
    pub calm : weigh over (elements t) ≡ 0

  -- The queues are pairs of arrays in step; the counters cover the entries, and run ahead of those
  -- of their queue by less than the other queue's share; the ghost set is bounded.
  pub record IsValid (s : Shard raw) : Type 0 where
    pub paired_small : s.small_hashes ≡ map key.hash_one s.small_keys
    pub paired_main : s.main_hashes ≡ map key.hash_one s.main_keys
    pub placed : IsPlaced s.map s.small_keys s.main_keys
    pub covered : weigh one (elements s.map) ≤ s.small_live + s.main_live
    pub slack_small : s.small_live ≤ weigh small_weight (elements s.map) + (s.small_cap - 1)
    pub slack_main :
        0 < s.shard_cap
        → s.main_live ≤ weigh main_weight (elements s.map) + (s.shard_cap - s.small_cap)
    pub caps : 0 < s.shard_cap → (1 ≤ s.small_cap) × (s.small_cap ≤ s.shard_cap)
    pub ghosts : (s.ghost_cap ≡ s.shard_cap) × (length s.ghost_set ≤ s.ghost_cap)

  -- Within the capacity, unless eviction is disabled.
  abbrev pub IsWithin : Shard raw → Type 0
  IsWithin s = 0 < s.shard_cap → s.small_live + s.main_live ≤ s.shard_cap

  -- The table shows the value `v` at the key `k`.
  abbrev pub Shows : Table → K → V → Type 0
  Shows t k v =
      (b : Bucket) × (e : Item K V) × (contents t b ≡ some e) × (e.0 ≡ k) × (e.1.value ≡ v)

  -- What eviction from `s` to `s'` leaves alone: the limits, the validity of an insert slot, and
  -- no item is added or changed as far as a user sees it.
  pub record Shrinks (s s' : Shard raw) : Type 0 where
    pub cap : s'.shard_cap ≡ s.shard_cap
    pub smalls : s'.small_cap ≡ s.small_cap
    pub fits : (h : ℕ) (slot : InsertSlot) → Fits s.map h slot → Fits s'.map h slot
    pub fewer : (w : K → V → ℕ) → weigh (seen w) (elements s'.map) ≤ weigh (seen w) (elements s.map)
    pub kept : (k : K) (v : V) → Shows s'.map k v → Shows s.map k v

  -- From `s` to `s'` no item has left, as far as a user sees it.
  abbrev pub Same : Shard raw → Shard raw → Type 0
  Same s s' = (w : K → V → ℕ) → weigh (seen w) (elements s'.map) ≡ weigh (seen w) (elements s.map)

  -- From `s` to `s'` one item has left, and no other; it had no use left when it did.
  pub record Loses (s s' : Shard raw) : Type 0 where
    pub victim : Item K V
    pub unused : victim.1.freq ≡ 0
    pub less :
        (w : K → V → ℕ)
        → weigh (seen w) (elements s'.map) + seen w victim ≡ weigh (seen w) (elements s.map)
