-- ===== src/Shard/Evict/Small.antt =====
-- A step of the eviction loop: the small queue is never found without a live key, an entry leaves
-- the shard or moves to the main queue, and the shard stays well-formed.
use neocache.Prelude.{
  ℕ, suc, ◌+◌, ◌-◌, ◌≤◌, ◌<◌, ◌≡◌, refl, ◌⊎◌, inl, inr, true, false, List, [], ◌∷◌, ◌++◌, length,
  leb, ltb, arith, Bool-cases, leb→le, not-leb, ok, Returns, if◌then◌else◌,
}
use neocache.Entry.{is_small, loc_main}
use neocache.HashSet
use neocache.Shard.{
  Item, hash_item, Shard, Popped, exhausted, live, small_round, evict_from_small, evict_one,
}
use neocache.Shard.Evict.{Front, Pops-Front, paired_push}
use neocache.Shard.Evict.Main.{evict_from_main_lem}
use neocache.Shard.Invariant.{small_weight, main_weight, one, seen, IsValid, Shrinks, Same, Loses}
use neocache.Shard.Lookup.{Shows-write, Shows-remove}
use neocache.Shard.Placed.{evict_small-IsPlaced, promote-IsPlaced}
use neocache.Shard.Pop.{Pops, pop_live-Pops, drained}
use neocache.Table.{Key, RawTable, weigh}

add_to_ghost-le :
    (cap hash : ℕ) (g : List ℕ)
    → 0 < cap
    → length g ≤ cap
    → length (HashSet.insert hash (if leb cap (length g) then [] else g)) ≤ cap
add_to_ghost-le cap hash g enabled fits = elim (Bool-cases (leb cap (length g))) [
  | inl full ↦ rw full (omega (arith, HashSet.length-insert-le hash []))
  | inr room ↦ rw room (omega (arith, HashSet.length-insert-le hash g, not-leb cap (length g) room))
]

module _ {K V : Type 0} ⦃key : Key K⦄ (raw : RawTable (Item K V) hash_item) where
  open raw use {
    Table, Bucket, elements, contents, write, remove, write-elements, remove-elements, Fits-write,
    Fits-remove,
  }

  -- A full shard with eviction enabled.
  pub record CanEvict (s : Shard raw) : Type 0 where
    pub valid : IsValid raw s
    pub enabled : 0 < s.shard_cap
    pub full : s.small_live + s.main_live ≡ s.shard_cap

  -- An entry has left, or one has moved out of the small queue.
  pub record Progress (s s' : Shard raw) : Type 0 where
    pub valid : IsValid raw s'
    pub shrinks : Shrinks raw s s'
    pub step :
        ((suc (s'.small_live + s'.main_live) ≡ s.small_live + s.main_live) × Loses raw s s')
        ⊎ ((s'.small_live + s'.main_live ≡ s.small_live + s.main_live)
            × (suc (length s'.small_keys) ≤ length s.small_keys)
            × Same raw s s')

  module _ (s : Shard raw) (c : CanEvict s) (h : ℕ) (k : K) (b : Bucket) (hs : List ℕ) (ks : List K)
      (f : Front raw s.map s.small_keys h k b hs ks) (n : ℕ) (counted : s.small_live ≡ suc n)
      (due : s.small_cap ≤ s.small_live) where
    open f use {item, here, same}

    abbrev promoted : Shard raw
    promoted = record s {
      map = write s.map b (item.0, record item.1 { loc = loc_main });
      small_hashes = hs;
      small_keys = ks;
      small_live = n;
      main_hashes = s.main_hashes ++ h ∷ [];
      main_keys = s.main_keys ++ k ∷ [];
      main_live = s.main_live + 1;
    }

    abbrev evicted : Shard raw
    evicted = record s {
      map = remove s.map b;
      small_hashes = hs;
      small_keys = ks;
      small_live = n;
      ghost_set =
          HashSet.insert h (if leb s.ghost_cap (length s.ghost_set) then [] else s.ghost_set);
    }

    small_round_hot : ltb 0 item.1.freq ≡ true → small_round raw s (live h k b hs ks) ≡ ok promoted
    unfolding small_round
    small_round_hot hot = ground (arith, here)

    small_round_cold : ltb 0 item.1.freq ≡ false → small_round raw s (live h k b hs ks) ≡ ok evicted
    unfolding small_round
    small_round_cold cold = ground (arith, here)

    promoted_weigh :
        (w : Item K V → ℕ)
        → weigh w (elements promoted.map) + w item
          ≡ weigh w (elements s.map) + w (item.0, record item.1 { loc = loc_main })
    promoted_weigh w = write-elements s.map b item _ w here refl

    evicted_weigh :
        (w : Item K V → ℕ) → weigh w (elements (remove s.map b)) + w item ≡ weigh w (elements s.map)
    evicted_weigh w = remove-elements s.map b item w here

    promoted-Progress : Progress s promoted
    promoted-Progress = record {
      valid = record {
        paired_small = f.paired;
        paired_main = paired_push raw h s.main_hashes k s.main_keys f.hash c.valid.paired_main;
        placed = promote-IsPlaced raw s.map b item here c.valid.placed k ks same f.kept;
        covered = omega (arith, c.valid.covered, promoted_weigh one);
        slack_small = ground (arith, c.valid.slack_small, promoted_weigh small_weight);
        slack_main = λ p. ground (
          arith,
          c.valid.slack_main p,
          c.valid.caps p,
          c.full,
          promoted_weigh main_weight,
          evicted_weigh main_weight,
        );
        caps = c.valid.caps;
        ghosts = c.valid.ghosts;
      };
      shrinks = record {
        cap = refl;
        smalls = refl;
        fits = λ x slot q. Fits-write s.map b item _ x slot here refl q;
        fewer = λ w. omega (arith, promoted_weigh (seen w));
        kept = Shows-write raw s.map b item here _ refl;
      };
      step = inr (omega arith, f.shorter, λ w. omega (arith, promoted_weigh (seen w)));
    }

    evicted-Progress : item.1.freq ≡ 0 → Progress s evicted
    evicted-Progress cold = record {
      valid = record {
        paired_small = f.paired;
        paired_main = c.valid.paired_main;
        placed = evict_small-IsPlaced raw s.map b item here c.valid.placed k ks same f.kept;
        covered = omega (arith, c.valid.covered, evicted_weigh one);
        slack_small = ground (arith, c.valid.slack_small, evicted_weigh small_weight);
        slack_main = λ p.
            ground (arith, c.valid.slack_main p, c.valid.caps p, c.full, evicted_weigh main_weight);
        caps = c.valid.caps;
        ghosts = (
          c.valid.ghosts.0,
          add_to_ghost-le s.ghost_cap h s.ghost_set (omega (arith, c.valid.ghosts.0, c.enabled))
              c.valid.ghosts.1,
        );
      };
      shrinks = record {
        cap = refl;
        smalls = refl;
        fits = λ x slot q. Fits-remove s.map b item x slot here q;
        fewer = λ w. omega (arith, evicted_weigh (seen w));
        kept = Shows-remove raw s.map b;
      };
      step = inl (
        omega arith,
        record { victim = item; unused = cold; less = λ w. evicted_weigh (seen w) },
      );
    }

  small_round_lem :
      (s : Shard raw)
      → CanEvict s
      → s.small_cap ≤ s.small_live
      → (r : Popped K Bucket) → Pops raw s.map s.small_keys r
      → Returns (small_round raw s r) (Progress s)
  small_round_lem s c due (exhausted hs ks) (_, gone) = absurd (
      omega (
        arith,
        c.valid.slack_small,
        c.valid.caps c.enabled,
        drained raw s.map s.small_keys (λ e. is_small e.1.loc) c.valid.placed.queued_small gone,
      ))
  small_round_lem s c due (live h k b hs ks) pops =
      let f = Pops-Front raw s.map s.small_keys h k b hs ks pops in
      let n = s.small_live - 1 in
      let counted : s.small_live ≡ suc n = omega (arith, c.valid.caps c.enabled) in
      elim (Bool-cases (ltb 0 f.item.1.freq)) [
        | inl hot ↦ (
          promoted s c h k b hs ks f n counted due,
          small_round_hot s c h k b hs ks f n counted due hot,
          promoted-Progress s c h k b hs ks f n counted due,
        )
        | inr cold ↦ (
          evicted s c h k b hs ks f n counted due,
          small_round_cold s c h k b hs ks f n counted due cold,
          evicted-Progress s c h k b hs ks f n counted due (ground (arith, cold)),
        )
      ]

  -- On a well-formed shard that is full, `evict_one` returns, leaves the shard well-formed, and
  -- adds or changes no value. It evicts one entry, whose frequency is 0 by then, and counts it out,
  -- or it keeps every entry and the live count and makes the small queue shorter.
  pub evict_one_lem : (s : Shard raw) → CanEvict s → Returns (evict_one raw s) (Progress s)
  unfolding evict_one evict_from_small
  evict_one_lem s c = elim (Bool-cases (leb s.small_cap s.small_live)) [
    | inl due ↦ rw due (
        small_round_lem s c (leb→le _ _ due) _
          (pop_live-Pops raw s.map s.small_hashes s.small_keys c.valid.paired_small))
    | inr low ↦
        let few = not-leb s.small_cap s.small_live low in
        let (s', run, d) = evict_from_main_lem raw s (record {
          valid = c.valid;
          enabled = c.enabled;
          few_small = few;
          some_main = omega (arith, c.valid.caps c.enabled, c.full);
          stored_main = omega (arith, c.valid.caps c.enabled, c.full, c.valid.slack_main c.enabled);
        }) in
        (
          s',
          rw low run,
          record { valid = d.valid; shrinks = d.shrinks; step = inl (d.one_less, d.loses) },
        )
  ]
