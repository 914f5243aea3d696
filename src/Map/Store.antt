-- ===== src/Map/Store.antt =====
-- `_insert` against the abstract map: the answer, the new entry, and what may be lost.
use neocache.Map.{insert}
use neocache.Map.Change.{moved-IsValid, write-IsValid}
use neocache.Map.Insert.{insert_new_lem}
use neocache.Prelude.{
  ℕ, ◌+◌, ◌<◌, ◌≤◌, ◌≡◌, ◌≢◌, refl, sym, ◌∙◌, ◌⊎◌, inl, inr, Option, some, none, arith,
  Option-cases, Returns,
}
use neocache.Shard.{Item, hash_item, Shard, has_key}
use neocache.Shard.Evict.{low_freq}
use neocache.Shard.Invariant.{is_key, IsValid, IsWithin, Shows}
use neocache.Shard.Lookup.{lookup, lookup-Shows, Shows-lookup, lookup-eq-none, Shows-write_ne}
use neocache.Shard.Lookup.Change.{weigh-none}
use neocache.Shard.Pop.{absent}
use neocache.Table.{Key, RawTable, Probe, occupied, vacant, weigh}

module _ {K V : Type 0} ⦃key : Key K⦄ (raw : RawTable (Item K V) hash_item) where
  open raw use {
    Table, Bucket, InsertSlot, elements, contents, write, find_or_find_insert_slot, probe-elements,
    probe-contents, contents-probe, probe-occupied, probe-vacant, contents-write,
  }

  -- The effect of storing `v` at `k`: the answer is the old value, `k` has the new one, and at most
  -- one other key, the victim, is evicted; there is none but for a new key in a full shard.
  pub record Stored (s : Shard raw) (k : K) (v : V) (r : Shard raw × Option V) : Type 0 where
    pub valid : IsValid raw r.0
    pub within : IsWithin raw r.0
    pub cap : r.0.shard_cap ≡ s.shard_cap
    pub returns : r.1 ≡ lookup raw s.map k
    pub stored : lookup raw r.0.map k ≡ some v
    pub others :
        (j : K)
        → j ≢ k
        → (lookup raw r.0.map j ≡ lookup raw s.map j) ⊎ (lookup raw r.0.map j ≡ none)
    pub victim : Option K
    pub full :
        (j : K)
        → victim ≡ some j
        → (lookup raw s.map k ≡ none)
          × (0 < s.shard_cap)
          × (s.small_live + s.main_live ≡ s.shard_cap)
    pub spares : (j : K) → j ≢ k → victim ≢ some j → lookup raw r.0.map j ≡ lookup raw s.map j

  -- If a table shows only what another shows, a key is as there or gone.
  pub same_or_gone :
      (t u : Table) (j : K)
      → weigh (is_key j) (elements t) ≤ 1
      → ((x : V) → Shows raw u j x → Shows raw t j x)
      → (lookup raw u j ≡ lookup raw t j) ⊎ (lookup raw u j ≡ none)
  same_or_gone t u j once fewer = elim (Option-cases (lookup raw u j)) [
    | inl gone ↦ inr gone
    | inr (x, at) ↦
        inl (at ∙ sym (lookup-Shows raw t j x once (fewer x (Shows-lookup raw u j x at))))
  ]

  -- A key that is as before or gone, and whose entries are as many, is as before.
  as_before :
      (t u : Table) (j : K)
      → weigh (is_key j) (elements u) ≡ weigh (is_key j) (elements t)
      → (lookup raw u j ≡ lookup raw t j) ⊎ (lookup raw u j ≡ none)
      → lookup raw u j ≡ lookup raw t j
  as_before t u j same (inl kept) = kept
  as_before t u j same (inr gone) =
      gone ∙ sym (lookup-eq-none raw t j (omega (arith, same, weigh-none raw u j gone)))

  module _ (s : Shard raw) (v : IsValid raw s) (within : IsWithin raw s) (k : K) (value : V) where
    abbrev probed : Table × Probe Bucket InsertSlot
    probed = find_or_find_insert_slot s.map (key.hash_one k) (has_key raw k)

    probed_weigh : (w : Item K V → ℕ) → weigh w (elements probed.0) ≡ weigh w (elements s.map)
    probed_weigh w = probe-elements s.map (key.hash_one k) (has_key raw k) w

    abbrev start : Shard raw
    start = record s { map = probed.0 }

    start-IsValid : IsValid raw start
    start-IsValid = moved-IsValid raw s v probed.0 probed_weigh

    probed_Shows : (j : K) (x : V) → Shows raw probed.0 j x → Shows raw s.map j x
    probed_Shows j x (b, e, at, e-j, e-x) =
        let (c, at') = probe-contents s.map (key.hash_one k) (has_key raw k) b e at in
        (c, e, at', e-j, e-x)

    occupied_lem :
        (b : Bucket) → probed.1 ≡ occupied b → Returns (insert raw s k value) (Stored s k value)
    unfolding insert
    occupied_lem b found =
        let (e, here, eq) = probe-occupied s.map (key.hash_one k) (has_key raw k) b found in
        let same = (key.beq_iff e.0 k).0 eq in
        let f = record e.1 { value = value } in
        let s' : Shard raw = record s { map = write probed.0 b (e.0, f) } in
        let here' = contents-write probed.0 b e (e.0, f) here in
        let v' =
          write-IsValid raw start start-IsValid b e here f refl
            (low_freq raw probed.0 b e here start-IsValid.placed.calm) in
        let others : (j : K)
            → j ≢ k
            → (lookup raw s'.map j ≡ lookup raw s.map j) ⊎ (lookup raw s'.map j ≡ none) =
          λ j other. same_or_gone s.map s'.map j (v.placed.unique j) (λ x shown.
            probed_Shows j x
              (Shows-write_ne raw probed.0 b e here f j x (λ p. other (p ∙ same)) shown)) in
        (
          (s', some e.1.value),
          ground (arith, found, here),
          record {
            valid = v';
            within = within;
            cap = refl;
            returns = sym (
                lookup-Shows raw s.map k e.1.value (v.placed.unique k)
                  (probed_Shows k e.1.value (b, e, here, same, refl)));
            stored =
                lookup-Shows raw s'.map k value (v'.placed.unique k)
                  (b, (e.0, f), here', same, refl);
            others = others;
            victim = none;
            full = λ j lost. absurd (ground (arith, lost));
            spares = λ j other safe.
                as_before s.map s'.map j
                  (omega (
                    arith,
                    probed_weigh (is_key j),
                    raw.write-elements probed.0 b e (e.0, f) (is_key j) here refl,
                  ))
                  (others j other);
          },
        )

    vacant_lem :
        (slot : InsertSlot)
        → probed.1 ≡ vacant slot
        → Returns (insert raw s k value) (Stored s k value)
    unfolding insert
    vacant_lem slot found =
        let (gone, fits) = probe-vacant s.map (key.hash_one k) (has_key raw k) slot found in
        let none_yet = absent raw s.map k gone in
        let (r, run, i) =
          insert_new_lem raw start k value slot start-IsValid within
            (probed_weigh (is_key k) ∙ none_yet) fits in
        let others : (j : K)
            → j ≢ k
            → (lookup raw r.0.map j ≡ lookup raw s.map j) ⊎ (lookup raw r.0.map j ≡ none) =
          λ j other.
            same_or_gone s.map r.0.map j (v.placed.unique j)
              (λ x shown. probed_Shows j x (i.kept j x other shown)) in
        (
          (r.0, none),
          ground (arith, found, run),
          record {
            valid = i.valid;
            within = i.within;
            cap = i.cap;
            returns = sym (lookup-eq-none raw s.map k none_yet);
            stored =
                lookup-Shows raw r.0.map k value (i.valid.placed.unique k)
                  (r.1, i.here.0, i.here.1, i.here.2, i.here.3);
            others = others;
            victim = i.victim;
            full = λ j lost.
                (lookup-eq-none raw s.map k none_yet, (i.full j lost).0, (i.full j lost).1);
            spares = λ j other safe.
                as_before s.map r.0.map j (i.spares j other safe ∙ probed_weigh (is_key j))
                  (others j other);
          },
        )

    by_probe :
        (p : Probe Bucket InsertSlot)
        → probed.1 ≡ p
        → Returns (insert raw s k value) (Stored s k value)
    by_probe (occupied b) found = occupied_lem b found
    by_probe (vacant slot) found = vacant_lem slot found

    -- On a well-formed shard within its capacity `insert` returns, whether the key is stored or
    -- new: the eviction loop ends, no counter passes below zero and no bucket dangles. The shard
    -- stays well-formed and within its capacity; the answer is the value that the key had; the key
    -- now has the new value. At most one other key, the victim, loses its value, and none does but
    -- for a new key in a shard that is full, with eviction enabled.
    pub insert-Stored : Returns (insert raw s k value) (Stored s k value)
    insert-Stored = by_probe probed.1 refl
