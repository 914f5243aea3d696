-- ===== src/Map/Write.antt =====
-- A write to a stored entry that keeps its key and queue, against the abstract map.
use neocache.Entry.{CacheEntry, max_freq}
use neocache.Map.Change.{write-IsValid}
use neocache.Map.Spec.{Becomes, updated, updated_lem}
use neocache.Prelude.{◌≤◌, ◌≡◌, refl, ◌∙◌, some}
use neocache.Shard.{Item, hash_item, Shard}
use neocache.Shard.Invariant.{IsValid, IsWithin}
use neocache.Shard.Lookup.{lookup}
use neocache.Shard.Lookup.Change.{lookup-write_ne, lookup-write_self}
use neocache.Table.{Key, RawTable}

module _ {K V : Type 0} ⦃key : Key K⦄ (raw : RawTable (Item K V) hash_item) where
  open raw use {Bucket, contents, write}

  pub write-Becomes :
      {R : Type 0} (s : Shard raw)
      → IsValid raw s
      → IsWithin raw s
      → (k : K) (b : Bucket) (e : Item K V) → contents s.map b ≡ some e
      → e.0 ≡ k
      → (f : CacheEntry V) → f.loc ≡ e.1.loc
      → f.freq ≤ max_freq
      → (answer : R)
      → Becomes raw s
          (updated (lookup raw s.map) k (some f.value))
          answer
          (record s { map = write s.map b (e.0, f) }, answer)
  write-Becomes s v within k b e here same f loc low answer = record {
    valid = write-IsValid raw s v b e here f loc low;
    within = within;
    cap = refl;
    returns = refl;
    map =
        updated_lem (lookup raw s.map) (lookup raw (write s.map b (e.0, f))) k (some f.value)
          (rw (← same) (lookup-write_self raw s.map b e here v.placed.unique f))
          (λ j other.
            lookup-write_ne raw s.map b e here v.placed.unique f j (λ p. other (p ∙ same)));
  }
