-- ===== src/Map/Change.antt =====
-- How the operations change a well-formed shard: by moving the table, by a write that keeps key
-- and queue, and by a removal that releases the entry's counter.
use neocache.Entry.{CacheEntry, Loc, loc_small, loc_main, max_freq}
use neocache.Map.{release}
use neocache.Prelude.{ℕ, ◌+◌, ◌≤◌, ◌≡◌, refl, some, arith}
use neocache.Shard.{Item, hash_item, Shard}
use neocache.Shard.Invariant.{
  is_key, in_small, in_main, small_weight, main_weight, one, over, IsValid, IsWithin,
}
use neocache.Shard.Placed.{remove-IsPlaced, write-IsPlaced}
use neocache.Table.{Key, RawTable, weigh}

module _ {K V : Type 0} ⦃key : Key K⦄ (raw : RawTable (Item K V) hash_item) where
  open raw use {Table, Bucket, elements, contents, write, remove, write-elements, remove-elements}

  module _ (s : Shard raw) (v : IsValid raw s) where
    pub moved-IsValid :
        (t : Table)
        → ((w : Item K V → ℕ) → weigh w (elements t) ≡ weigh w (elements s.map))
        → IsValid raw (record s { map = t })
    moved-IsValid t same = record {
      paired_small = v.paired_small;
      paired_main = v.paired_main;
      placed = record {
        unique = λ j. omega (arith, v.placed.unique j, same (is_key j));
        queued_small = λ j. omega (arith, v.placed.queued_small j, same (in_small j));
        queued_main = λ j. omega (arith, v.placed.queued_main j, same (in_main j));
        calm = omega (arith, v.placed.calm, same over);
      };
      covered = omega (arith, v.covered, same one);
      slack_small = omega (arith, v.slack_small, same small_weight);
      slack_main = λ p. omega (arith, v.slack_main p, same main_weight);
      caps = v.caps;
      ghosts = v.ghosts;
    }

    module _ (b : Bucket) (e : Item K V) (here : contents s.map b ≡ some e) where
      pub write-IsValid :
          (f : CacheEntry V)
          → f.loc ≡ e.1.loc
          → f.freq ≤ max_freq
          → IsValid raw (record s { map = write s.map b (e.0, f) })
      write-IsValid f loc low =
          let law = λ (w : Item K V → ℕ). write-elements s.map b e (e.0, f) w here refl in
          record {
            paired_small = v.paired_small;
            paired_main = v.paired_main;
            placed = write-IsPlaced raw s.map b e here v.placed f loc low;
            covered = omega (arith, v.covered, law one);
            slack_small = ground (arith, v.slack_small, law small_weight);
            slack_main = λ p. ground (arith, v.slack_main p, law main_weight);
            caps = v.caps;
            ghosts = v.ghosts;
          }

      -- The counter of the entry's queue falls by one, or stays at zero.
      abbrev pub released : Loc → Shard raw
      released loc = release (record s { map = remove s.map b }) loc

      law :
          (w : Item K V → ℕ) → weigh w (elements (remove s.map b)) + w e ≡ weigh w (elements s.map)
      law w = remove-elements s.map b e w here

      pub released-IsValid : (loc : Loc) → e.1.loc ≡ loc → IsValid raw (released loc)
      unfolding release
      released-IsValid loc_small at = record {
        paired_small = v.paired_small;
        paired_main = v.paired_main;
        placed = remove-IsPlaced raw s.map b e here v.placed;
        covered = ground (arith, v.covered, law one, v.slack_small);
        slack_small = ground (arith, v.slack_small, law small_weight);
        slack_main = λ p. ground (arith, v.slack_main p, law main_weight);
        caps = v.caps;
        ghosts = v.ghosts;
      }
      released-IsValid loc_main at = record {
        paired_small = v.paired_small;
        paired_main = v.paired_main;
        placed = remove-IsPlaced raw s.map b e here v.placed;
        covered = ground (arith, v.covered, law one);
        slack_small = ground (arith, v.slack_small, law small_weight);
        slack_main = λ p. ground (arith, v.slack_main p, law main_weight);
        caps = v.caps;
        ghosts = v.ghosts;
      }

      pub released-IsWithin :
          (loc : Loc)
          → IsWithin raw s
          → IsWithin raw (released loc)
            × ((released loc).shard_cap ≡ s.shard_cap)
            × ((released loc).map ≡ remove s.map b)
      unfolding release
      released-IsWithin loc_small w = ((λ p. omega (arith, w p)), refl, refl)
      released-IsWithin loc_main w = ((λ p. omega (arith, w p)), refl, refl)
