-- ===== src/MapRef/Fill.antt =====
-- The operations of an entry that leave its key stored.
use neocache.Map.Insert.{insert_new_lem}
use neocache.Map.Spec.{Becomes, updated_self, updated_ne}
use neocache.Map.Store.{same_or_gone}
use neocache.Map.Write.{write-Becomes}
use neocache.MapRef.Api.{
  occupied_entry, vacant_entry, View, entry, or_insert, or_try_insert_with, insert,
}
use neocache.MapRef.Enter.{Entered, entry-Entered}
use neocache.MapRef.Occupied
use neocache.MapRef.Occupied.{OccupiedEntry}
use neocache.MapRef.Vacant
use neocache.MapRef.Vacant.{VacantEntry}
use neocache.Prelude.{◌≡◌, ◌≢◌, refl, sym, ◌∙◌, ◌⊎◌, inl, inr, Option, none, some, arith, Returns}
use neocache.Shard.{Item, hash_item, Shard}
use neocache.Shard.Evict.{low_freq}
use neocache.Shard.Invariant.{IsValid, IsWithin}
use neocache.Shard.Lookup.{lookup, lookup-Shows}
use neocache.Table.{Key, RawTable}

-- The value of an option, or another.
abbrev pub value_or : {V : Type 0} → V → Option V → V
value_or x none = x
value_or x (some y) = y

module _ {K V : Type 0} ⦃key : Key K⦄ (raw : RawTable (Item K V) hash_item) where
  open raw use {Bucket, InsertSlot, contents, write, contents-write}

  -- The bucket that an operation of an entry returns: the key is there with the value `x`, and any
  -- other key is as before in `s` or evicted.
  pub record Held (s : Shard raw) (k : K) (x : V) (r : Shard raw × Bucket) : Type 0 where
    pub valid : IsValid raw r.0
    pub within : IsWithin raw r.0
    pub cap : r.0.shard_cap ≡ s.shard_cap
    pub here : (e : Item K V) × (contents r.0.map r.1 ≡ some e) × (e.0 ≡ k) × (e.1.value ≡ x)
    pub stored : lookup raw r.0.map k ≡ some x
    pub others :
        (j : K)
        → j ≢ k
        → (lookup raw r.0.map j ≡ lookup raw s.map j) ⊎ (lookup raw r.0.map j ≡ none)

  module _ (s : Shard raw) (k : K) where
    vacant_Held :
        (t : Shard raw) (w : VacantEntry InsertSlot K) (value : V)
        → Entered raw s k (t, vacant_entry w)
        → Returns (Vacant.insert raw t w value) (Held s k value)
    unfolding Vacant.insert
    vacant_Held t w value n =
        let (gone, no_key, own, hash, fits) = n.describes in
        let (r, run, i) = insert_new_lem raw t k value w.slot n.valid n.within no_key fits in
        (
          r,
          rw (hash, own) run,
          record {
            valid = i.valid;
            within = i.within;
            cap = i.cap ∙ n.cap;
            here = i.here;
            stored =
                lookup-Shows raw r.0.map k value (i.valid.placed.unique k)
                  (r.1, i.here.0, i.here.1, i.here.2, i.here.3);
            others = λ j other. rw (← n.map j) (
                same_or_gone raw t.map r.0.map j (n.valid.placed.unique j)
                  (λ x shown. i.kept j x other shown));
          },
        )

    -- The entry is occupied and nothing changes.
    kept_Held :
        (t : Shard raw) (o : OccupiedEntry Bucket K) (x : V)
        → Entered raw s k (t, occupied_entry o)
        → lookup raw s.map k ≡ some x
        → Held s k x (t, o.bucket)
    kept_Held t o x n at =
        let (e, here, same, own, value) = n.describes in
        record {
          valid = n.valid;
          within = n.within;
          cap = n.cap;
          here = (e, here, same, ground (arith, at, n.map k, value));
          stored = n.map k ∙ at;
          others = λ j other. inl (n.map j);
        }

    -- What an occupied entry holds is stored in `s`.
    abbrev old :
        (t : Shard raw) (o : OccupiedEntry Bucket K)
        → Entered raw s k (t, occupied_entry o)
        → (x : V) × (lookup raw s.map k ≡ some x)
    old t o n = let (e, here, same, own, value) = n.describes in (e.1.value, sym (n.map k) ∙ value)

    -- A write to the value of an occupied entry.
    written_Held :
        (t : Shard raw) (o : OccupiedEntry Bucket K) (x : V)
        → (n : Entered raw s k (t, occupied_entry o))
        → let e = n.describes.0 in
          Held s k x
            (record t { map = write t.map o.bucket (e.0, record e.1 { value = x }) }, o.bucket)
    written_Held t o x n =
        let (e, here, same, own, value) = n.describes in
        let f = record e.1 { value = x } in
        let p =
          write-Becomes raw t n.valid n.within k o.bucket e here same f refl
            (low_freq raw t.map o.bucket e here n.valid.placed.calm) (tt {0}) in
        record {
          valid = p.valid;
          within = p.within;
          cap = p.cap ∙ n.cap;
          here = ((e.0, f), contents-write t.map o.bucket e (e.0, f) here, same, refl);
          stored = p.map k ∙ updated_self (lookup raw t.map) k (some x);
          others =
              λ j other. inl (p.map j ∙ updated_ne (lookup raw t.map) k (some x) j other ∙ n.map j);
        }

    or_insert_of :
        (t : Shard raw) (view : View raw) (value : V)
        → Entered raw s k (t, view)
        → Returns (or_insert raw t view value) (Held s k (value_or value (lookup raw s.map k)))
    unfolding or_insert Occupied.into_ref
    or_insert_of t (occupied_entry o) value n =
        let (x, at) = old t o n in
        ((t, o.bucket), ground (arith, n.describes.1), rw at (kept_Held t o x n at))
    or_insert_of t (vacant_entry w) value n =
        let gone : lookup raw s.map k ≡ none = sym (n.map k) ∙ n.describes.0 in
        rw gone (vacant_Held t w value n)

    insert_of :
        (t : Shard raw) (view : View raw) (value : V)
        → Entered raw s k (t, view)
        → Returns (insert raw t view value) (Held s k value)
    unfolding insert Occupied.insert Occupied.into_ref
    insert_of t (occupied_entry o) value n =
        let (e, here, same, own, value') = n.describes in
        let f = record e.1 { value = value } in
        (
          (record t { map = write t.map o.bucket (e.0, f) }, o.bucket),
          ground (arith, here, contents-write t.map o.bucket e (e.0, f) here),
          written_Held t o value n,
        )
    insert_of t (vacant_entry w) value n = vacant_Held t w value n

    -- What a fallible initialiser leaves: an error and the map as it was, or the key in place.
    abbrev pub Tried : {E : Type 0} → E ⊎ V → Shard raw × (E ⊎ Bucket) → Type 0
    Tried made (t, inl e) =
        (made ≡ inl e)
        × (lookup raw s.map k ≡ none)
        × Becomes raw s (lookup raw s.map) tt (t, tt {0})
    Tried (inl e) (t, inr b) = (x : V) × (lookup raw s.map k ≡ some x) × Held s k x (t, b)
    Tried (inr value) (t, inr b) = Held s k (value_or value (lookup raw s.map k)) (t, b)

    try_of :
        {E : Type 0} (t : Shard raw) (view : View raw) (made : E ⊎ V)
        → Entered raw s k (t, view)
        → Returns (or_try_insert_with raw t view (λ _. made)) (Tried made)
    unfolding or_try_insert_with Occupied.into_ref
    try_of t (occupied_entry o) (inl e) n =
        let (x, at) = old t o n in
        ((t, inr o.bucket), ground (arith, n.describes.1), (x, at, kept_Held t o x n at))
    try_of t (occupied_entry o) (inr value) n =
        let (x, at) = old t o n in
        ((t, inr o.bucket), ground (arith, n.describes.1), rw at (kept_Held t o x n at))
    try_of t (vacant_entry w) (inl e) n = (
      (t, inl e),
      refl,
      (
        refl,
        sym (n.map k) ∙ n.describes.0,
        record { valid = n.valid; within = n.within; cap = n.cap; returns = refl; map = n.map },
      ),
    )
    try_of t (vacant_entry w) (inr value) n =
        let gone : lookup raw s.map k ≡ none = sym (n.map k) ∙ n.describes.0 in
        let (r, run, held) = vacant_Held t w value n in
        ((r.0, inr r.1), ground (arith, run), rw gone held)

  module _ (s : Shard raw) (v : IsValid raw s) (within : IsWithin raw s) (k : K) (value : V) where
    -- On a well-formed shard within its capacity, `or_insert` at the entry of a key returns. The
    -- bucket that it answers holds the key with the stored value if there is one, and else with the
    -- given value, which is then in the map; any other key is as before or evicted.
    pub or_insert-Held :
        Returns
          (or_insert raw (entry raw s k).0 (entry raw s k).1 value)
          (Held s k (value_or value (lookup raw s.map k)))
    or_insert-Held = or_insert_of s k _ _ value (entry-Entered raw s v within k)

    -- On a well-formed shard within its capacity, `insert` at the entry of a key returns. The
    -- bucket that it answers holds the key with the given value, whether it was stored or not; any
    -- other key is as before or evicted.
    pub insert-Held :
        Returns (insert raw (entry raw s k).0 (entry raw s k).1 value) (Held s k value)
    insert-Held = insert_of s k _ _ value (entry-Entered raw s v within k)

  -- On a well-formed shard within its capacity, `or_try_insert_with` at the entry of a key returns.
  -- An error of the initialiser is passed on, only for a key that is not stored, and leaves every
  -- stored value; otherwise the bucket that it answers holds the key with the stored value if there
  -- is one, and else with the initialiser's.
  pub or_try_insert_with-Tried :
      {E : Type 0} (s : Shard raw)
      → IsValid raw s
      → IsWithin raw s
      → (k : K) (made : E ⊎ V)
      → Returns
          (or_try_insert_with raw (entry raw s k).0 (entry raw s k).1 (λ _. made))
          (Tried s k made)
  or_try_insert_with-Tried s v within k made = try_of s k _ _ made (entry-Entered raw s v within k)
