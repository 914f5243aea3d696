-- ===== src/Map/Clear.antt =====
-- `clear_all` empties the shard.
use neocache.Map.{erase_all, clear_all}
use neocache.Map.Each.{walk_congr, full_congr}
use neocache.Map.Spec.{Becomes}
use neocache.Prelude.{ℕ, ◌+◌, ◌≡◌, refl, none, some, List, [], ◌∷◌, All, IsDistinct, arith, ap}
use neocache.Shard.{Item, hash_item, Shard}
use neocache.Shard.Invariant.{is_key, in_small, in_main, one, over, IsValid}
use neocache.Shard.Lookup.{lookup-eq-none}
use neocache.Table.{Key, RawTable, weigh, walk}

module _ {K V : Type 0} ⦃key : Key K⦄ (raw : RawTable (Item K V) hash_item) where
  open raw use {
    Table, Bucket, elements, contents, iter, remove, elements-iter, iter-full, iter-distinct,
    contents-remove_ne, remove-elements,
  }

  walk-cons :
      (w : Item K V → ℕ) (t : Table) (b : Bucket) (bs : List Bucket) (e : Item K V)
      → contents t b ≡ some e
      → weigh w (walk (contents t) (b ∷ bs)) ≡ w e + weigh w (walk (contents t) bs)
  unfolding walk weigh
  walk-cons w t b bs e here = ground (arith, here)

  -- What `elements` holds besides the buckets that are still to be erased stays.
  erase_all_lem :
      (w : Item K V → ℕ) (bs : List Bucket) (t : Table)
      → All (λ b. (e : Item K V) × (contents t b ≡ some e)) bs
      → IsDistinct bs
      → weigh w (elements (erase_all raw bs t)) + weigh w (walk (contents t) bs)
        ≡ weigh w (elements t)
  unfolding erase_all walk weigh
  erase_all_lem w [] t full distinct = omega arith
  erase_all_lem w (b ∷ bs) t ((e, here), fulls) (others, distinct) =
      let kept = contents-remove_ne t b in
      let same = walk_congr raw (contents t) (contents (remove t b)) b bs others kept in
      let rest =
        erase_all_lem w bs (remove t b)
          (full_congr raw (contents t) (contents (remove t b)) b bs others kept fulls) distinct in
      let gone = remove-elements t b e w here in
      let cons = walk-cons w t b bs e here in omega (arith, cons, gone, rest, ap (weigh w) same)

  emptied : (s : Shard raw) (w : Item K V → ℕ) → weigh w (elements (clear_all raw s).map) ≡ 0
  unfolding clear_all
  emptied s w =
      let all : weigh w (elements s.map) ≡ weigh w (walk (contents s.map) (iter s.map)) =
        rw (elements-iter s.map) in
      omega (arith, all, erase_all_lem w (iter s.map) s.map (iter-full s.map) (iter-distinct s.map))

  -- `clear_all` on a well-formed shard leaves a well-formed shard of the same capacity, without
  -- entries and with both counters at zero.
  pub clear_all-Becomes :
      (s : Shard raw)
      → IsValid raw s
      → Becomes raw s
          (λ j. none)
          0
          (clear_all raw s, (clear_all raw s).small_live + (clear_all raw s).main_live)
  unfolding clear_all
  clear_all-Becomes s v =
      let no = emptied s in
      record {
        valid = record {
          paired_small = refl;
          paired_main = refl;
          placed = record {
            unique = λ k. omega (arith, no (is_key k));
            queued_small = λ k. omega (arith, no (in_small k));
            queued_main = λ k. omega (arith, no (in_main k));
            calm = no over;
          };
          covered = omega (arith, no one);
          slack_small = omega arith;
          slack_main = λ p. omega arith;
          caps = v.caps;
          ghosts = (v.ghosts.0, omega arith);
        };
        within = λ p. omega arith;
        cap = refl;
        returns = refl;
        map = λ j. lookup-eq-none raw (clear_all raw s).map j (no (is_key j));
      }
