-- ===== src/MapRef/Replace.antt =====
-- The operations of an occupied entry that take its value out or replace it.
use neocache.Map.Change.{released}
use neocache.Map.Spec.{Becomes, updated, updated_same}
use neocache.Map.Take.{released-Becomes}
use neocache.Map.Write.{write-Becomes}
use neocache.MapRef.Api.{occupied_entry, vacant_entry, View, entry, and_modify}
use neocache.MapRef.Enter.{Entered, entry-Entered}
use neocache.MapRef.Occupied.{OccupiedEntry, remove, remove_entry, replace_entry}
use neocache.Prelude.{◌≡◌, refl, sym, ◌∙◌, ap, Option, ok, ◌>>=◌, none, some, arith, Returns}
use neocache.Shard.{Item, hash_item, Shard}
use neocache.Shard.Evict.{low_freq}
use neocache.Shard.Invariant.{IsValid, IsWithin}
use neocache.Shard.Lookup.{lookup}
use neocache.Table.{Key, RawTable}

module _ {K V : Type 0} ⦃key : Key K⦄ (raw : RawTable (Item K V) hash_item) where
  open raw use {Bucket, InsertSlot, contents, write, contents-write}

  module _ (s : Shard raw) (v : IsValid raw s) (within : IsWithin raw s)
      (o : OccupiedEntry Bucket K) (e : Item K V) (here : contents s.map o.bucket ≡ some e)
      (same : e.0 ≡ o.own_key) where
    -- On an occupied entry of a well-formed shard within its capacity, `remove_entry` returns. It
    -- answers with the key and the value, and takes that key, and no other, out of the map.
    pub remove_entry-Becomes : Returns (remove_entry raw s o) (
        Becomes raw {R = K × V} s
          (updated (lookup raw s.map) o.own_key none)
          (o.own_key, e.1.value))
    unfolding remove_entry
    remove_entry-Becomes =
        let p =
          released-Becomes raw s v within {R = K × V} o.own_key o.bucket e here same
            (e.0, e.1.value) in
        (
          (released raw s v o.bucket e here e.1.loc, (e.0, e.1.value)),
          ground (arith, here),
          record {
            valid = p.valid;
            within = p.within;
            cap = p.cap;
            returns = ap (λ x. (x, e.1.value)) same;
            map = p.map;
          },
        )

    -- `remove` does the same and answers with the value alone.
    remove-eq-remove_entry : remove raw s o ≡ (remove_entry raw s o >>= λ r. ok (r.0, r.1.1))
    unfolding remove remove_entry
    remove-eq-remove_entry = ground (arith, here)

    -- What a replacement leaves at the bucket: the new value with the queue and the frequency of
    -- the old.
    abbrev pub Replaced : V → Shard raw × (K × V) → Type 0
    Replaced value r =
        Becomes raw {R = K × V} s (updated (lookup raw s.map) o.own_key (some value))
          (o.own_key, e.1.value) r
        × (contents r.0.map o.bucket
            ≡ some (o.own_key, record { value = value; freq = e.1.freq; loc = e.1.loc }))

    -- On an occupied entry of a well-formed shard within its capacity, `replace_entry` returns. It
    -- answers with the key and the old value; the key has the new value, with the frequency and the
    -- queue as they were, and no other value changes.
    pub replace_entry-Replaced :
        (value : V) → Returns (replace_entry raw s o value) (Replaced value)
    unfolding replace_entry
    replace_entry-Replaced value =
        let f = record e.1 { value = value } in
        let p =
          write-Becomes raw {R = K × V} s v within e.0 o.bucket e here refl f refl
            (low_freq raw s.map o.bucket e here v.placed.calm) (e.0, e.1.value) in
        (
          (record s { map = write s.map o.bucket (o.own_key, f) }, (e.0, e.1.value)),
          ground (arith, here),
          (rw (← same) p, rw (← same) (contents-write s.map o.bucket e (e.0, f) here)),
        )

  -- What `and_modify` makes of the stored value of its key.
  abbrev pub modified : (V → V) → Option V → Option V
  modified f none = none
  modified f (some x) = some (f x)

  module _ (s : Shard raw) (k : K) (f : V → V) where
    and_modify_of :
        (t : Shard raw) (view : View raw)
        → Entered raw s k (t, view)
        → Returns (and_modify raw t view f) (λ r.
          Becomes raw s
            (updated (lookup raw s.map) k (modified f (lookup raw s.map k)))
            view
            (r.0, r.1))
    unfolding and_modify
    and_modify_of t (occupied_entry o) n =
        let (e, here, same, own, value) = n.describes in
        let g = record e.1 { value = f e.1.value } in
        let p =
          write-Becomes raw t n.valid n.within k o.bucket e here same g refl
            (low_freq raw t.map o.bucket e here n.valid.placed.calm) (tt {0}) in
        let at : lookup raw s.map k ≡ some e.1.value = sym (n.map k) ∙ value in
        (
          (record t { map = write t.map o.bucket (e.0, g) }, occupied_entry o),
          ground (arith, here),
          record {
            valid = p.valid;
            within = p.within;
            cap = p.cap ∙ n.cap;
            returns = refl;
            map = λ j. p.map j ∙ rw (at, n.map j);
          },
        )
    and_modify_of t (vacant_entry w) n =
        let gone : lookup raw s.map k ≡ none = sym (n.map k) ∙ n.describes.0 in
        (
          (t, vacant_entry w),
          refl,
          record {
            valid = n.valid;
            within = n.within;
            cap = n.cap;
            returns = refl;
            map = λ j. n.map j ∙ updated_same (lookup raw s.map) k _ (rw gone) j;
          },
        )

    -- On a well-formed shard within its capacity, `and_modify` at the entry of a key returns that
    -- entry. It replaces the value of the key, if it is stored, by what the closure makes of it,
    -- and changes no other value.
    pub and_modify-Becomes :
        IsValid raw s
        → IsWithin raw s
        → Returns (and_modify raw (entry raw s k).0 (entry raw s k).1 f) (λ r.
          Becomes raw s
            (updated (lookup raw s.map) k (modified f (lookup raw s.map k)))
            (entry raw s k).1
            (r.0, r.1))
    and_modify-Becomes v within = and_modify_of _ _ (entry-Entered raw s v within k)
