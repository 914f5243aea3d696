-- ===== src/MapRef/Enter.antt =====
-- What `entry` finds.
use neocache.Map.Change.{moved-IsValid}
use neocache.MapRef.Api.{occupied_entry, vacant_entry, View, entry}
use neocache.Prelude.{ℕ, ◌≡◌, refl, none, some, arith}
use neocache.Shard.{Item, hash_item, Shard, has_key}
use neocache.Shard.Invariant.{is_key, IsValid, IsWithin}
use neocache.Shard.Lookup.{lookup, lookup-Shows, lookup-eq-none}
use neocache.Shard.Lookup.Change.{lookup_congr}
use neocache.Shard.Pop.{absent}
use neocache.Table.{Key, RawTable, Probe, occupied, vacant, weigh}

module _ {K V : Type 0} ⦃key : Key K⦄ (raw : RawTable (Item K V) hash_item) where
  open raw use {
    Table, Bucket, InsertSlot, Fits, elements, contents, find_or_find_insert_slot, probe-elements,
    probe-contents, contents-probe, probe-occupied, probe-vacant,
  }

  -- An occupied entry points to the key's stored value; a vacant one holds a good slot for a key
  -- that is not stored.
  abbrev pub Describes : Shard raw → K → View raw → Type 0
  Describes s k (occupied_entry o) =
      (e : Item K V) × (contents s.map o.bucket ≡ some e)
      × (e.0 ≡ k)
      × (o.own_key ≡ k)
      × (lookup raw s.map k ≡ some e.1.value)
  Describes s k (vacant_entry w) =
      (lookup raw s.map k ≡ none)
      × (weigh (is_key k) (elements s.map) ≡ 0)
      × (w.own_key ≡ k)
      × (w.hash ≡ key.hash_one k)
      × Fits s.map (key.hash_one k) w.slot

  pub record Entered (s : Shard raw) (k : K) (r : Shard raw × View raw) : Type 0 where
    pub valid : IsValid raw r.0
    pub within : IsWithin raw r.0
    pub cap : r.0.shard_cap ≡ s.shard_cap
    pub map : (j : K) → lookup raw r.0.map j ≡ lookup raw s.map j
    pub describes : Describes r.0 k r.1

  module _ (s : Shard raw) (v : IsValid raw s) (within : IsWithin raw s) (k : K) where
    abbrev probed : Table × Probe Bucket InsertSlot
    probed = find_or_find_insert_slot s.map (key.hash_one k) (has_key raw k)

    abbrev start : Shard raw
    start = record s { map = probed.0 }

    probed_weigh : (w : Item K V → ℕ) → weigh w (elements probed.0) ≡ weigh w (elements s.map)
    probed_weigh w = probe-elements s.map (key.hash_one k) (has_key raw k) w

    start-IsValid : IsValid raw start
    start-IsValid = moved-IsValid raw s v probed.0 probed_weigh

    start_map : (j : K) → lookup raw probed.0 j ≡ lookup raw s.map j
    start_map j =
        lookup_congr raw s.map probed.0 j (v.placed.unique j) (start-IsValid.placed.unique j)
          (λ x shown.
            let c = probe-contents s.map (key.hash_one k) (has_key raw k) shown.0 shown.1 shown.2 in
            (c.0, shown.1, c.1, shown.3, shown.4))
          (λ x shown.
            let c = contents-probe s.map (key.hash_one k) (has_key raw k) shown.0 shown.1 shown.2 in
            (c.0, shown.1, c.1, shown.3, shown.4))

    entered : (view : View raw) → Describes start k view → Entered s k (start, view)
    entered view d = record {
      valid = start-IsValid;
      within = within;
      cap = refl;
      map = start_map;
      describes = d;
    }

    by_probe : (p : Probe Bucket InsertSlot) → probed.1 ≡ p → Entered s k (entry raw s k)
    unfolding entry
    by_probe (occupied b) found =
        let (e, here, eq) = probe-occupied s.map (key.hash_one k) (has_key raw k) b found in
        let same = (key.beq_iff e.0 k).0 eq in
        let d : Describes start k (occupied_entry (record { bucket = b; own_key = k })) = (
          e,
          here,
          same,
          refl,
          lookup-Shows raw probed.0 k e.1.value (start-IsValid.placed.unique k)
              (b, e, here, same, refl),
        ) in
        rw found (entered _ d)
    by_probe (vacant slot) found =
        let (gone, fits) = probe-vacant s.map (key.hash_one k) (has_key raw k) slot found in
        let no_key : weigh (is_key k) (elements probed.0) ≡ 0 =
          omega (arith, probed_weigh (is_key k), absent raw s.map k gone) in
        let d : Describes start k
            (vacant_entry (record { own_key = k; hash = key.hash_one k; slot = slot })) =
          (lookup-eq-none raw probed.0 k no_key, no_key, refl, refl, fits) in
        rw found (entered _ d)

    -- On a well-formed shard within its capacity `entry` changes no stored value. It gives an
    -- occupied entry, at the bucket with the value, if the key is stored, and otherwise a vacant
    -- one with the hash and a slot that is good for that key.
    pub entry-Entered : Entered s k (entry raw s k)
    entry-Entered = by_probe probed.1 refl
