-- ===== src/Map/Insert.antt =====
-- An insertion of a new key: what it stores, what it evicts, and that the shard stays well-formed.
mod Lost
use neocache.Entry.{Loc, loc_small, loc_main}
use neocache.HashSet
use neocache.Map.{enqueue, insert_new}
use neocache.Map.Insert.Lost.{lost_key, Lost-full, Lost-spares, ghost_taken-IsValid}
use neocache.Prelude.{
  ℕ, suc, ◌+◌, ◌≤◌, ◌<◌, ◌≡◌, ◌≢◌, refl, sym, ◌∙◌, ap, ◌⊎◌, inl, inr, Option, some, none, [], ◌∷◌,
  ◌++◌, length, arith, if◌then◌else◌, Returns, to_nat, Bool-cases,
}
use neocache.Shard.{Item, hash_item, Shard}
use neocache.Shard.Evict.{paired_push}
use neocache.Shard.Evict.Loop.{evict_loop_lem}
use neocache.Shard.Invariant.{
  is_key, in_small, in_main, small_weight, main_weight, one, over, occ-push, IsPlaced, IsValid,
  IsWithin, Shows, Same, Loses,
}
use neocache.Table.{Key, RawTable, weigh}

module _ {K V : Type 0} ⦃key : Key K⦄ (raw : RawTable (Item K V) hash_item) where
  open raw use {
    Table, Bucket, InsertSlot, Fits, elements, contents, insert_in_slot, insert-elements,
    contents-insert, contents-insert_ne, bucket_eq,
  }

  -- `s'` holds the new entry at `b`, and besides it only entries of `s`.
  pub record Inserted (s : Shard raw) (k : K) (v : V) (s' : Shard raw) (b : Bucket) : Type 0 where
    pub valid : IsValid raw s'
    pub within : IsWithin raw s'
    pub cap : s'.shard_cap ≡ s.shard_cap
    pub here : (e : Item K V) × (contents s'.map b ≡ some e) × (e.0 ≡ k) × (e.1.value ≡ v)
    pub kept : (j : K) (x : V) → j ≢ k → Shows raw s'.map j x → Shows raw s.map j x
    pub victim : Option K
    pub full :
        (j : K) → victim ≡ some j → (0 < s.shard_cap) × (s.small_live + s.main_live ≡ s.shard_cap)
    pub spares :
        (j : K)
        → j ≢ k
        → victim ≢ some j
        → weigh (is_key j) (elements s'.map) ≡ weigh (is_key j) (elements s.map)

  module _ (s : Shard raw) (v : IsValid raw s)
      (room : 0 < s.shard_cap → s.small_live + s.main_live < s.shard_cap) (k : K) (value : V)
      (slot : InsertSlot) (gone : weigh (is_key k) (elements s.map) ≡ 0)
      (fits : Fits s.map (key.hash_one k) slot) where
    abbrev item : Loc → Item K V
    item loc = (k, record { value = value; freq = 0; loc = loc })

    abbrev filled : Loc → Table × Bucket
    filled loc = insert_in_slot s.map (key.hash_one k) slot (item loc)

    weigh-filled :
        (loc : Loc) (w : Item K V → ℕ)
        → weigh w (elements (filled loc).0) ≡ weigh w (elements s.map) + w (item loc)
    weigh-filled loc w = insert-elements s.map (key.hash_one k) slot (item loc) w fits refl

    filled_unique : (loc : Loc) (j : K) → weigh (is_key j) (elements (filled loc).0) ≤ 1
    filled_unique loc j = elim (Bool-cases (key.beq k j)) [
      | inl same ↦
          let none_yet : weigh (is_key j) (elements s.map) ≡ 0 =
            rw (← (key.beq_iff k j).0 same) gone in
          ground (arith, none_yet, weigh-filled loc (is_key j))
      | inr other ↦ ground (arith, v.placed.unique j, weigh-filled loc (is_key j))
    ]

    abbrev queued : Loc → Shard raw
    queued loc = enqueue (record s { map = (filled loc).0 }) loc (key.hash_one k) k

    small_IsPlaced : IsPlaced raw (filled loc_small).0 (s.small_keys ++ k ∷ []) s.main_keys
    small_IsPlaced = record {
      unique = filled_unique loc_small;
      queued_small = λ j. ground (
        arith,
        v.placed.queued_small j,
        weigh-filled loc_small (in_small j),
        occ-push j k s.small_keys,
      );
      queued_main = λ j. ground (arith, v.placed.queued_main j, weigh-filled loc_small (in_main j));
      calm = omega (arith, v.placed.calm, weigh-filled loc_small over);
    }

    main_IsPlaced : IsPlaced raw (filled loc_main).0 s.small_keys (s.main_keys ++ k ∷ [])
    main_IsPlaced = record {
      unique = filled_unique loc_main;
      queued_small =
          λ j. ground (arith, v.placed.queued_small j, weigh-filled loc_main (in_small j));
      queued_main = λ j. ground (
        arith,
        v.placed.queued_main j,
        weigh-filled loc_main (in_main j),
        occ-push j k s.main_keys,
      );
      calm = omega (arith, v.placed.calm, weigh-filled loc_main over);
    }

    queued-IsValid : (loc : Loc) → IsValid raw (queued loc)
    unfolding enqueue
    queued-IsValid loc_small = record {
      paired_small =
          paired_push raw (key.hash_one k) s.small_hashes k s.small_keys refl v.paired_small;
      paired_main = v.paired_main;
      placed = small_IsPlaced;
      covered = omega (arith, v.covered, weigh-filled loc_small one);
      slack_small = omega (arith, v.slack_small, weigh-filled loc_small small_weight);
      slack_main = λ p. omega (arith, v.slack_main p, weigh-filled loc_small main_weight);
      caps = v.caps;
      ghosts = v.ghosts;
    }
    queued-IsValid loc_main = record {
      paired_small = v.paired_small;
      paired_main = paired_push raw (key.hash_one k) s.main_hashes k s.main_keys refl v.paired_main;
      placed = main_IsPlaced;
      covered = omega (arith, v.covered, weigh-filled loc_main one);
      slack_small = omega (arith, v.slack_small, weigh-filled loc_main small_weight);
      slack_main = λ p. omega (arith, v.slack_main p, weigh-filled loc_main main_weight);
      caps = v.caps;
      ghosts = v.ghosts;
    }

    filled_here : (loc : Loc) → contents (filled loc).0 (filled loc).1 ≡ some (item loc)
    filled_here loc = contents-insert s.map (key.hash_one k) slot (item loc) fits refl

    filled_kept :
        (loc : Loc) (j : K) (x : V) → j ≢ k → Shows raw (filled loc).0 j x → Shows raw s.map j x
    filled_kept loc j x other (b, e, at, e-j, e-x) = elim (bucket_eq b (filled loc).1) [
      | yes p ↦
          let e' : some e ≡ some (item loc) =
            sym at ∙ ap (contents (filled loc).0) p ∙ filled_here loc in
          absurd (other (ground (arith, e')))
      | no p ↦ (
        b,
        e,
        sym (contents-insert_ne s.map (key.hash_one k) slot (item loc) b fits p) ∙ at,
        e-j,
        e-x,
      )
    ]

    filled_spares :
        (loc : Loc) (j : K)
        → j ≢ k
        → weigh (is_key j) (elements (filled loc).0) ≡ weigh (is_key j) (elements s.map)
    filled_spares loc j other = elim (Bool-cases (key.beq k j)) [
      | inl same ↦ absurd (other (sym ((key.beq_iff k j).0 same)))
      | inr apart ↦ ground (arith, apart, weigh-filled loc (is_key j))
    ]

    queued_spares :
        (loc : Loc) (j : K)
        → j ≢ k
        → weigh (is_key j) (elements (queued loc).map) ≡ weigh (is_key j) (elements s.map)
    unfolding enqueue
    queued_spares loc_small j other = filled_spares loc_small j other
    queued_spares loc_main j other = filled_spares loc_main j other

    pub queued-Inserted : (loc : Loc) → Inserted s k value (queued loc) (filled loc).1
    unfolding enqueue
    queued-Inserted loc_small = record {
      valid = queued-IsValid loc_small;
      within = λ p. omega (arith, room p);
      cap = refl;
      here = (item loc_small, filled_here loc_small, refl, refl);
      kept = filled_kept loc_small;
      victim = none;
      full = λ j lost. absurd (ground (arith, lost));
      spares = λ j other safe. filled_spares loc_small j other;
    }
    queued-Inserted loc_main = record {
      valid = queued-IsValid loc_main;
      within = λ p. omega (arith, room p);
      cap = refl;
      here = (item loc_main, filled_here loc_main, refl, refl);
      kept = filled_kept loc_main;
      victim = none;
      full = λ j lost. absurd (ground (arith, lost));
      spares = λ j other safe. filled_spares loc_main j other;
    }

  -- A new key is stored whatever the counters say: the eviction loop ends, and no counter passes
  -- below zero on the way.
  pub insert_new_lem :
      (s : Shard raw) (k : K) (value : V) (slot : InsertSlot)
      → IsValid raw s
      → IsWithin raw s
      → weigh (is_key k) (elements s.map) ≡ 0
      → Fits s.map (key.hash_one k) slot
      → Returns (insert_new raw s (key.hash_one k) k slot value) (λ r. Inserted s k value r.0 r.1)
  unfolding insert_new
  insert_new_lem s k value slot v within gone fits =
      let hash = key.hash_one k in
      let loc = if HashSet.contains hash s.ghost_set then loc_main else loc_small in
      let s₁ : Shard raw = record s { ghost_set = HashSet.remove hash s.ghost_set } in
      let v₁ : IsValid raw s₁ = ghost_taken-IsValid raw s v hash in
      let (s₂, run, r) =
        evict_loop_lem raw (suc (suc (length s.small_keys))) s₁ v₁ within (omega arith) in
      let gone₂ : weigh (is_key k) (elements s₂.map) ≡ 0 =
        omega (arith, gone, r.shrinks.fewer (λ j _. to_nat (key.beq j k))) in
      let fits₂ = r.shrinks.fits hash slot fits in
      let i = queued-Inserted s₂ r.valid r.room k value slot gone₂ fits₂ loc in
      (
        (
          queued s₂ r.valid r.room k value slot gone₂ fits₂ loc,
          (filled s₂ r.valid r.room k value slot gone₂ fits₂ loc).1,
        ),
        ground (arith, run),
        record {
          valid = i.valid;
          within = i.within;
          cap = i.cap ∙ r.shrinks.cap;
          here = i.here;
          kept = λ j x other shown. r.shrinks.kept j x (i.kept j x other shown);
          victim = lost_key raw s₁ s₂ r.lost;
          full = Lost-full raw s₁ s₂ r.lost;
          spares = λ j other safe.
              queued_spares s₂ r.valid r.room k value slot gone₂ fits₂ loc j other
              ∙ Lost-spares raw s₁ s₂ r.lost j safe;
        },
      )
