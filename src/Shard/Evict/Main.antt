-- ===== src/Shard/Evict/Main.antt =====
-- `evict_from_main` evicts exactly one entry: its loop over second chances ends, because each
-- round takes one from the sum of the frequencies.
use neocache.Prelude.{
  ℕ, zero, suc, ◌-◌, ◌<◌, ◌≡◌, sym, ◌∙◌, inl, inr, true, false, some, List, [], ◌∷◌, ◌++◌, not, ltb,
  ok, arith, Bool-cases, ltb→lt, Run, Returns,
}
use neocache.Entry.{is_small}
use neocache.Shard.{
  Item, hash_item, Shard, Popped, exhausted, live, total_freq, main_round, main_loop,
  evict_from_main,
}
use neocache.Shard.Evict.{
  MainDone, CanEvictMain, Pops-Front, again, gone, again-CanEvictMain, again-Shrinks, again-Same,
  again_cooler, gone-MainDone,
}
use neocache.Shard.Invariant.{Shrinks, Same, Loses}
use neocache.Shard.Pop.{Pops, pop_live-Pops, drained}
use neocache.Table.{Key, RawTable}

module _ {K V : Type 0} ⦃key : Key K⦄ (raw : RawTable (Item K V) hash_item) where
  open raw use {elements, contents}

  pub Shrinks-trans : {s t u : Shard raw} → Shrinks raw s t → Shrinks raw t u → Shrinks raw s u
  Shrinks-trans p q = record {
    cap = q.cap ∙ p.cap;
    smalls = q.smalls ∙ p.smalls;
    fits = λ h slot f. q.fits h slot (p.fits h slot f);
    fewer = λ w. omega (arith, p.fewer w, q.fewer w);
    kept = λ k v u. p.kept k v (q.kept k v u);
  }

  pub Loses-after : {s t u : Shard raw} → Same raw s t → Loses raw t u → Loses raw s u
  Loses-after same l = record {
    victim = l.victim;
    unused = l.unused;
    less = λ w. l.less w ∙ same w;
  }

  module _ (next : Shard raw → Run (Shard raw)) (s : Shard raw) (h : ℕ) (k : K) (b : raw.Bucket)
      (hs : List ℕ) (ks : List K) (e : Item K V) (here : contents s.map b ≡ some e) where
    main_round_hot :
        ltb 0 e.1.freq ≡ true
        → main_round raw next s (live h k b hs ks)
          ≡ next (record s {
            map = raw.write s.map b (e.0, record e.1 { freq = e.1.freq - 1 });
            main_hashes = hs ++ h ∷ [];
            main_keys = ks ++ k ∷ [];
          })
    unfolding main_round
    main_round_hot hot = ground arith

    main_round_cold :
        (n : ℕ)
        → ltb 0 e.1.freq ≡ false
        → s.main_live ≡ suc n
        → main_round raw next s (live h k b hs ks)
          ≡ ok (record s {
            map = raw.remove s.map b;
            main_hashes = hs;
            main_keys = ks;
            main_live = n;
          })
    unfolding main_round
    main_round_cold n cold some_main = ground arith

  main_round_lem :
      (next : Shard raw → Run (Shard raw)) (s : Shard raw)
      → CanEvictMain raw s
      → (r : Popped K raw.Bucket) → Pops raw s.map s.main_keys r
      → ((t : Shard raw)
          → CanEvictMain raw t
          → total_freq raw t.map < total_freq raw s.map
          → Returns (next t) (MainDone raw t))
      → Returns (main_round raw next s r) (MainDone raw s)
  unfolding main_round
  main_round_lem next s c (exhausted hs ks) (_, gone_keys) ih = absurd (
      omega (
        arith,
        c.stored_main,
        drained raw s.map s.main_keys (λ e. not (is_small e.1.loc)) c.valid.placed.queued_main
            gone_keys,
      ))
  main_round_lem next s c (live h k b hs ks) pops ih =
      let f = Pops-Front raw s.map s.main_keys h k b hs ks pops in
      elim (Bool-cases (ltb 0 f.item.1.freq)) [
        | inl hot ↦
            let s' = again raw s c h k b hs ks f in
            let (u, run, d) =
              ih s' (again-CanEvictMain raw s c h k b hs ks f)
                (omega (arith, again_cooler raw s c h k b hs ks f (ltb→lt _ _ hot))) in
            (
              u,
              main_round_hot next s h k b hs ks f.item f.here hot ∙ run,
              record {
                valid = d.valid;
                shrinks = Shrinks-trans (again-Shrinks raw s c h k b hs ks f) d.shrinks;
                one_less = d.one_less;
                loses = Loses-after (again-Same raw s c h k b hs ks f) d.loses;
              },
            )
        | inr cold ↦
            let e : s.main_live ≡ suc (s.main_live - 1) = omega (arith, c.some_main) in
            (
              gone raw s c h k b hs ks f (s.main_live - 1),
              main_round_cold next s h k b hs ks f.item f.here (s.main_live - 1) cold e,
              gone-MainDone raw s c h k b hs ks f (s.main_live - 1) (ground (arith, cold)) (sym e),
            )
      ]

  main_loop_lem :
      (fuel : ℕ) (s : Shard raw)
      → CanEvictMain raw s
      → total_freq raw s.map < fuel
      → Returns (main_loop raw fuel s) (MainDone raw s)
  unfolding main_loop
  main_loop_lem zero s c enough = absurd (omega arith)
  main_loop_lem (suc fuel) s c enough =
      main_round_lem (main_loop raw fuel) s c _
        (pop_live-Pops raw s.map s.main_hashes s.main_keys c.valid.paired_main)
        (λ t d less. main_loop_lem fuel t d (omega arith))

  -- On a well-formed shard with eviction enabled, `small_live` below `small_cap`, `main_live` at
  -- least one and at least one stored entry of the main queue, `evict_from_main` returns: its loop
  -- over second chances ends. It evicts one entry, whose frequency has come down to 0, and takes
  -- one from the live count; it leaves the shard well-formed and keeps every other entry and every
  -- value.
  pub evict_from_main_lem :
      (s : Shard raw) → CanEvictMain raw s → Returns (evict_from_main raw s) (MainDone raw s)
  unfolding evict_from_main
  evict_from_main_lem s c = main_loop_lem (suc (total_freq raw s.map)) s c (omega arith)
