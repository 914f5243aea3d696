-- ===== src/Shard/Evict.antt =====
-- The eviction steps keep the shard well-formed and make progress: no counter passes below zero,
-- no bucket dangles, and the loop over the main queue ends.
pub mod Main
pub mod Small
pub mod Loop
use mathlib.Core.List.{map-append}
use neocache.Prelude.{
  ℕ, suc, ◌+◌, ◌-◌, ◌≤◌, ◌<◌, ◌≡◌, refl, some, List, [], ◌∷◌, ◌++◌, map, length, arith,
}
use neocache.Entry.{max_freq}
use neocache.Shard.{Item, hash_item, Shard, live, total_freq}
use neocache.Shard.Invariant.{
  small_weight, main_weight, one, over, seen, IsValid, Shrinks, Same, Loses,
}
use neocache.Shard.Placed.{Keeps, evict_main-IsPlaced, rotate-IsPlaced}
use neocache.Shard.Lookup.{Shows-write, Shows-remove}
use neocache.Shard.Pop.{Pops}
use neocache.Table.{Key, RawTable, weigh}

module _ {K V : Type 0} ⦃key : Key K⦄ (raw : RawTable (Item K V) hash_item) where
  open raw use {
    Table, Bucket, elements, contents, write, remove, write-elements, remove-elements, Fits-write,
    Fits-remove,
  }

  pub paired_push :
      (h : ℕ) (hs : List ℕ) (k : K) (ks : List K)
      → h ≡ key.hash_one k
      → hs ≡ map key.hash_one ks
      → hs ++ h ∷ [] ≡ map key.hash_one (ks ++ k ∷ [])
  paired_push h hs k ks e p = rw (map-append, e, p)

  pub low_freq :
      (t : Table) (b : Bucket) (e : Item K V)
      → contents t b ≡ some e
      → weigh over (elements t) ≡ 0
      → e.1.freq ≤ max_freq
  low_freq t b e here calm = omega (arith, remove-elements t b e over here)

  -- What an eviction from the main queue has done.
  pub record MainDone (s s' : Shard raw) : Type 0 where
    pub valid : IsValid raw s'
    pub shrinks : Shrinks raw s s'
    pub one_less : suc (s'.small_live + s'.main_live) ≡ s.small_live + s.main_live
    pub loses : Loses raw s s'

  -- The shard from which a main eviction can start.
  pub record CanEvictMain (s : Shard raw) : Type 0 where
    pub valid : IsValid raw s
    pub enabled : 0 < s.shard_cap
    pub few_small : s.small_live < s.small_cap
    pub some_main : 1 ≤ s.main_live
    pub stored_main : 1 ≤ weigh main_weight (elements s.map)

  -- A live key popped from the front of the queue `keys`.
  pub record Front (t : Table) (keys : List K) (h : ℕ) (k : K) (b : Bucket) (hs : List ℕ)
      (ks : List K) : Type 0 where
    pub item : Item K V
    pub here : contents t b ≡ some item
    pub same : item.0 ≡ k
    pub paired : hs ≡ map key.hash_one ks
    pub hash : h ≡ key.hash_one k
    pub shorter : suc (length ks) ≤ length keys
    pub kept : Keeps raw t keys k ks

  pub Pops-Front :
      (t : Table) (keys : List K) (h : ℕ) (k : K) (b : Bucket) (hs : List ℕ) (ks : List K)
      → Pops raw t keys (live h k b hs ks)
      → Front t keys h k b hs ks
  Pops-Front t keys h k b hs ks (paired, hash, shorter, (e, here, eq), kept) = record {
    item = e;
    here = here;
    same = (key.beq_iff e.0 k).0 eq;
    paired = paired;
    hash = hash;
    shorter = shorter;
    kept = kept;
  }

  module _ (s : Shard raw) (c : CanEvictMain s) (h : ℕ) (k : K) (b : Bucket) (hs : List ℕ)
      (ks : List K) (f : Front s.map s.main_keys h k b hs ks) where
    open f use {item, here, same}

    abbrev pub again : Shard raw
    again = record s {
      map = write s.map b (item.0, record item.1 { freq = item.1.freq - 1 });
      main_hashes = hs ++ h ∷ [];
      main_keys = ks ++ k ∷ [];
    }

    abbrev pub gone : ℕ → Shard raw
    gone n = record s { map = remove s.map b; main_hashes = hs; main_keys = ks; main_live = n }

    pub again_weigh :
        (w : Item K V → ℕ)
        → weigh w (elements again.map) + w item
          ≡ weigh w (elements s.map) + w (item.0, record item.1 { freq = item.1.freq - 1 })
    again_weigh w =
        write-elements s.map b item (item.0, record item.1 { freq = item.1.freq - 1 }) w here refl

    pub again-CanEvictMain : CanEvictMain again
    again-CanEvictMain = record {
      valid = record {
        paired_small = c.valid.paired_small;
        paired_main = paired_push h hs k ks f.hash f.paired;
        placed =
            rotate-IsPlaced raw s.map b item here c.valid.placed k ks same
              (record item.1 { freq = item.1.freq - 1 }) refl
              (omega (arith, low_freq s.map b item here c.valid.placed.calm)) f.kept;
        covered = omega (arith, c.valid.covered, again_weigh one);
        slack_small = omega (arith, c.valid.slack_small, again_weigh small_weight);
        slack_main = λ p. omega (arith, c.valid.slack_main p, again_weigh main_weight);
        caps = c.valid.caps;
        ghosts = c.valid.ghosts;
      };
      enabled = c.enabled;
      few_small = c.few_small;
      some_main = c.some_main;
      stored_main = omega (arith, c.stored_main, again_weigh main_weight);
    }

    pub again-Shrinks : Shrinks raw s again
    again-Shrinks = record {
      cap = refl;
      smalls = refl;
      fits = λ x slot q. Fits-write s.map b item _ x slot here refl q;
      fewer = λ w. omega (arith, again_weigh (seen w));
      kept = Shows-write raw s.map b item here _ refl;
    }

    pub again_cooler : 0 < item.1.freq → suc (total_freq raw again.map) ≡ total_freq raw s.map
    again_cooler hot = omega (arith, again_weigh (λ e. e.1.freq))

    pub gone_weigh :
        (w : Item K V → ℕ) → weigh w (elements (remove s.map b)) + w item ≡ weigh w (elements s.map)
    gone_weigh w = remove-elements s.map b item w here

    pub again-Same : Same raw s again
    again-Same w = omega (arith, again_weigh (seen w))

    pub gone-MainDone : (n : ℕ) → item.1.freq ≡ 0 → suc n ≡ s.main_live → MainDone s (gone n)
    gone-MainDone n cold less = record {
      valid = record {
        paired_small = c.valid.paired_small;
        paired_main = f.paired;
        placed = evict_main-IsPlaced raw s.map b item here c.valid.placed k ks same f.kept;
        covered = omega (arith, c.valid.covered, gone_weigh one);
        slack_small = ground (arith, c.few_small, c.valid.slack_small, gone_weigh small_weight);
        slack_main = λ p. ground (arith, c.valid.slack_main p, gone_weigh main_weight);
        caps = c.valid.caps;
        ghosts = c.valid.ghosts;
      };
      shrinks = record {
        cap = refl;
        smalls = refl;
        fits = λ x slot q. Fits-remove s.map b item x slot here q;
        fewer = λ w. omega (arith, gone_weigh (seen w));
        kept = Shows-remove raw s.map b;
      };
      one_less = omega arith;
      loses = record { victim = item; unused = cold; less = λ w. gone_weigh (seen w) };
    }
