-- ===== src/Shard/Placed.antt =====
-- Each change of the table, with the queues as the code leaves them, keeps every key in its queue.
use neocache.Prelude.{
  ◌+◌, ◌≤◌, ◌≡◌, refl, ap, ◌∙◌, ◌⊎◌, true, some, List, [], ◌∷◌, ◌++◌, to_nat, arith,
}
use neocache.Entry.{CacheEntry, loc_main, max_freq}
use neocache.Shard.{Item, hash_item}
use neocache.Shard.Invariant.{is_key, in_small, in_main, over, occ, occ-push, IsPlaced}
use neocache.Table.{Key, RawTable, weigh, weigh_add, weigh_congr}

module _ {K V : Type 0} ⦃key : Key K⦄ (raw : RawTable (Item K V) hash_item) where
  open raw use {Table, Bucket, elements, contents, write, remove, write-elements, remove-elements}

  -- The stored keys that the queue `keys` loses with its popped front are `k` alone.
  abbrev pub Keeps : Table → List K → K → List K → Type 0
  Keeps t keys k ks =
      (j : K) → (weigh (is_key j) (elements t) ≡ 0) ⊎ (occ j keys ≡ to_nat (key.beq k j) + occ j ks)

  pub split_key :
      (t : Table) (j : K)
      → weigh (is_key j) (elements t)
        ≡ weigh (in_small j) (elements t) + weigh (in_main j) (elements t)
  split_key t j =
      weigh_congr _ _ (elements t) (λ e. ground arith)
      ∙ weigh_add (in_small j) (in_main j) (elements t)

  module _ (t : Table) (b : Bucket) (e : Item K V) (here : contents t b ≡ some e) where
    module _ {ss ms : List K} (p : IsPlaced raw t ss ms) where
      -- The item of a key is the only one.
      alone :
          (j : K)
          → key.beq e.0 j ≡ true
          → (weigh (in_small j) (elements t) ≡ in_small j e)
            × (weigh (in_main j) (elements t) ≡ in_main j e)
      alone j same = ground (
        arith,
        p.unique j,
        split_key t j,
        remove-elements t b e (in_small j) here,
        remove-elements t b e (in_main j) here,
      )

      pub remove-IsPlaced : IsPlaced raw (remove t b) ss ms
      remove-IsPlaced = record {
        unique = λ j. omega (arith, p.unique j, remove-elements t b e (is_key j) here);
        queued_small =
            λ j. omega (arith, p.queued_small j, remove-elements t b e (in_small j) here);
        queued_main = λ j. omega (arith, p.queued_main j, remove-elements t b e (in_main j) here);
        calm = omega (arith, p.calm, remove-elements t b e over here);
      }

      -- A write that keeps the key and the queue.
      pub write-IsPlaced :
          (f : CacheEntry V)
          → f.loc ≡ e.1.loc
          → f.freq ≤ max_freq
          → IsPlaced raw (write t b (e.0, f)) ss ms
      write-IsPlaced f same low = record {
        unique = λ j. omega (arith, p.unique j, write-elements t b e (e.0, f) (is_key j) here refl);
        queued_small = λ j.
            ground (arith, p.queued_small j, write-elements t b e (e.0, f) (in_small j) here refl);
        queued_main = λ j.
            ground (arith, p.queued_main j, write-elements t b e (e.0, f) (in_main j) here refl);
        calm = omega (arith, p.calm, write-elements t b e (e.0, f) over here refl);
      }

      -- Facts about the item of the popped key.
      popped_small :
          (k : K) (ks : List K) (j : K)
          → e.0 ≡ k
          → Keeps t ss k ks
          → weigh (in_small j) (elements t) ≤ occ j ks + in_small j e
      popped_small k ks j same kept =
          ground
            (arith, kept j, p.queued_small j, alone j, split_key t j, ap (λ x. key.beq x j) same)

      popped_main :
          (k : K) (ks : List K) (j : K)
          → e.0 ≡ k
          → Keeps t ms k ks
          → weigh (in_main j) (elements t) ≤ occ j ks + in_main j e
      popped_main k ks j same kept =
          ground
            (arith, kept j, p.queued_main j, alone j, split_key t j, ap (λ x. key.beq x j) same)

      module _ (k : K) (ks : List K) (same : e.0 ≡ k) where
        -- Eviction of the popped key from the small queue, and from the main queue.
        pub evict_small-IsPlaced : Keeps t ss k ks → IsPlaced raw (remove t b) ks ms
        evict_small-IsPlaced kept =
            let q = remove-IsPlaced in
            record {
              unique = q.unique;
              queued_small = λ j.
                  omega
                    (arith, popped_small k ks j same kept, remove-elements t b e (in_small j) here);
              queued_main = q.queued_main;
              calm = q.calm;
            }

        pub evict_main-IsPlaced : Keeps t ms k ks → IsPlaced raw (remove t b) ss ks
        evict_main-IsPlaced kept =
            let q = remove-IsPlaced in
            record {
              unique = q.unique;
              queued_small = q.queued_small;
              queued_main = λ j.
                  omega
                    (arith, popped_main k ks j same kept, remove-elements t b e (in_main j) here);
              calm = q.calm;
            }

        -- The second chance: the popped key goes to the back of its queue.
        pub rotate-IsPlaced :
            (f : CacheEntry V)
            → f.loc ≡ e.1.loc
            → f.freq ≤ max_freq
            → Keeps t ms k ks
            → IsPlaced raw (write t b (e.0, f)) ss (ks ++ k ∷ [])
        rotate-IsPlaced f loc low kept =
            let q = write-IsPlaced f loc low in
            record {
              unique = q.unique;
              queued_small = q.queued_small;
              queued_main = λ j. ground (
                arith,
                popped_main k ks j same kept,
                write-elements t b e (e.0, f) (in_main j) here refl,
                occ-push j k ks,
                ap (λ x. key.beq x j) same,
              );
              calm = q.calm;
            }

        -- The promotion from the small queue to the main queue.
        pub promote-IsPlaced :
            Keeps t ss k ks
            → IsPlaced raw (write t b (e.0, record e.1 { loc = loc_main })) ks (ms ++ k ∷ [])
        promote-IsPlaced kept =
            let f = record e.1 { loc = loc_main } in
            record {
              unique = λ j.
                  omega (arith, p.unique j, write-elements t b e (e.0, f) (is_key j) here refl);
              queued_small = λ j. ground (
                arith,
                popped_small k ks j same kept,
                write-elements t b e (e.0, f) (in_small j) here refl,
              );
              queued_main = λ j. ground (
                arith,
                p.queued_main j,
                alone j,
                write-elements t b e (e.0, f) (in_main j) here refl,
                occ-push j k ms,
                ap (λ x. key.beq x j) same,
              );
              calm = omega (arith, p.calm, write-elements t b e (e.0, f) over here refl);
            }
