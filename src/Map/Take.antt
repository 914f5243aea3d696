-- ===== src/Map/Take.antt =====
-- `_remove` against the abstract map.
use mathlib.Core.Option
use neocache.Map.{remove_found, remove}
use neocache.Map.Change.{released, released-IsValid, released-IsWithin}
use neocache.Map.Spec.{Becomes, updated, updated_lem, updated_same}
use neocache.Prelude.{
  ◌≡◌, refl, ◌∙◌, ap, inl, inr, Option, none, some, arith, Option-cases, Returns,
}
use neocache.Shard.{Item, hash_item, Shard, has_key}
use neocache.Shard.Invariant.{IsValid, IsWithin}
use neocache.Shard.Lookup.{lookup}
use neocache.Shard.Lookup.Change.{found_lem, missed_lem, lookup-remove_ne, lookup-remove_self}
use neocache.Table.{Key, RawTable}

module _ {K V : Type 0} ⦃key : Key K⦄ (raw : RawTable (Item K V) hash_item) where
  open raw use {Table, Bucket, contents, find, write, contents-write}

  module _ (s : Shard raw) (v : IsValid raw s) (within : IsWithin raw s) where
    -- A removal of the entry in a bucket, with its counter released.
    pub released-Becomes :
        {R : Type 0} (k : K) (b : Bucket) (e : Item K V) (here : contents s.map b ≡ some e)
        → e.0 ≡ k
        → (answer : R)
        → Becomes raw s
            (updated (lookup raw s.map) k none)
            answer
            (released raw s v b e here e.1.loc, answer)
    released-Becomes k b e here same answer =
        let (within', cap, map) = released-IsWithin raw s v b e here e.1.loc within in
        record {
          valid = released-IsValid raw s v b e here e.1.loc refl;
          within = within';
          cap = cap;
          returns = refl;
          map = λ j. rw map (
              updated_lem (lookup raw s.map) (lookup raw (raw.remove s.map b)) k none
                (rw (← same) (lookup-remove_self raw s.map b e here v.placed.unique))
                (λ i other.
                  lookup-remove_ne raw s.map b e here v.placed.unique i (λ p. other (p ∙ same)))
                j);
        }

    pub remove_found_lem :
        (k : K) (b : Bucket) (e : Item K V)
        → contents s.map b ≡ some e
        → e.0 ≡ k
        → Returns
            (remove_found raw s b)
            (Becomes raw s (updated (lookup raw s.map) k none) (some (k, e.1.value)))
    unfolding remove_found
    remove_found_lem k b e here same =
        let p = released-Becomes {R = Option (K × V)} k b e here same (some (e.0, e.1.value)) in
        (
          (released raw s v b e here e.1.loc, some (e.0, e.1.value)),
          ground (arith, here),
          record {
            valid = p.valid;
            within = p.within;
            cap = p.cap;
            returns = ap (λ x. some (x, e.1.value)) same;
            map = p.map;
          },
        )

    -- On a well-formed shard within its capacity `remove` returns. It answers with the key and its
    -- value if the key is stored, and none otherwise, and takes that key, and no other, out of the
    -- map; the shard stays well-formed within its capacity.
    pub remove-Becomes :
        (k : K)
        → Returns (remove raw s k) (
            Becomes raw s
              (updated (lookup raw s.map) k none)
              (Option.map (λ x. (k, x)) (lookup raw s.map k)))
    unfolding remove
    remove-Becomes k = elim (Option-cases (find s.map (key.hash_one k) (has_key raw k))) [
      | inl miss ↦
          let no_value = missed_lem raw s.map k miss in
          (
            (s, none),
            ground (arith, miss),
            record {
              valid = v;
              within = within;
              cap = refl;
              returns = rw no_value;
              map = updated_same (lookup raw s.map) k none no_value;
            },
          )
      | inr (b, hit) ↦
          let (e, here, same, value) = found_lem raw s.map k b hit in
          let (r, run, p) = remove_found_lem k b e here same in
          (
            r,
            ground (arith, hit, run),
            record {
              valid = p.valid;
              within = p.within;
              cap = p.cap;
              returns = rw value p.returns;
              map = p.map;
            },
          )
    ]
