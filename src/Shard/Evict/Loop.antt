-- ===== src/Shard/Evict/Loop.antt =====
-- The `while` loop that makes room for a new entry ends with room.
use neocache.Prelude.{
  ℕ, zero, suc, ◌+◌, ◌<◌, ◌≡◌, refl, ◌∙◌, ◌⊎◌, inl, inr, ◌&&◌, length, leb, ltb, arith, Bool-cases,
  ok, Returns,
}
use neocache.Shard.{Item, hash_item, Shard, evict_one, evict_loop}
use neocache.Shard.Evict.Main.{Shrinks-trans, Loses-after}
use neocache.Shard.Evict.Small.{evict_one_lem}
use neocache.Shard.Invariant.{IsValid, IsWithin, Shrinks, Same, Loses}
use neocache.Table.{Key, RawTable}

module _ {K V : Type 0} ⦃key : Key K⦄ (raw : RawTable (Item K V) hash_item) where
  -- A shard with room for one more entry.
  pub record HasRoom (s s' : Shard raw) : Type 0 where
    pub valid : IsValid raw s'
    pub shrinks : Shrinks raw s s'
    pub room : 0 < s'.shard_cap → s'.small_live + s'.main_live < s'.shard_cap
    pub lost :
        Same raw s s'
        ⊎ (Loses raw s s' × (0 < s.shard_cap) × (s.small_live + s.main_live ≡ s.shard_cap))

  Shrinks-refl : (s : Shard raw) → Shrinks raw s s
  Shrinks-refl s = record {
    cap = refl;
    smalls = refl;
    fits = λ h slot f. f;
    fewer = λ w. omega arith;
    kept = λ k v u. u;
  }

  pub done_lem :
      (fuel : ℕ) (s : Shard raw)
      → (0 < s.shard_cap → s.small_live + s.main_live < s.shard_cap)
      → evict_loop raw (suc fuel) s ≡ ok s
  unfolding evict_loop
  done_lem fuel s room = ground arith

  next_lem :
      (fuel : ℕ) (s t u : Shard raw)
      → 0 < s.shard_cap
      → s.small_live + s.main_live ≡ s.shard_cap
      → evict_one raw s ≡ ok t
      → evict_loop raw fuel t ≡ ok u
      → evict_loop raw (suc fuel) s ≡ ok u
  unfolding evict_loop
  next_lem fuel s t u enabled full step rest = ground arith

  after :
      (s t u : Shard raw)
      → Shrinks raw s t
      → Same raw s t
      → 0 < s.shard_cap
      → s.small_live + s.main_live ≡ s.shard_cap
      → HasRoom t u
      → HasRoom s u
  after s t u p same enabled full r = record {
    valid = r.valid;
    shrinks = Shrinks-trans raw p r.shrinks;
    room = r.room;
    lost = elim r.lost [
      | inl kept ↦ inl (λ w. kept w ∙ same w)
      | inr l ↦ inr (Loses-after raw same l.0, enabled, full)
    ];
  }

  -- From a well-formed shard within its capacity the `while` loop of an insertion ends, on fuel of
  -- at least two more than the small queue is long. It leaves a well-formed shard with room for one
  -- more entry, unless eviction is disabled. It evicts one entry at most, and that only from a full
  -- shard, and adds or changes no value.
  pub evict_loop_lem :
      (fuel : ℕ) (s : Shard raw)
      → IsValid raw s
      → IsWithin raw s
      → suc (length s.small_keys) < fuel
      → Returns (evict_loop raw fuel s) (HasRoom s)
  evict_loop_lem zero s v w enough = absurd (omega arith)
  evict_loop_lem (suc zero) s v w enough = absurd (omega arith)
  evict_loop_lem (suc (suc fuel)) s v w enough =
      elim (Bool-cases (ltb 0 s.shard_cap && leb s.shard_cap (s.small_live + s.main_live))) [
        | inr idle ↦
            let room : 0 < s.shard_cap → s.small_live + s.main_live < s.shard_cap =
              λ p. ground arith in
            (
              s,
              done_lem (suc fuel) s room,
              record { valid = v; shrinks = Shrinks-refl s; room = room; lost = inl (λ w. refl) },
            )
        | inl busy ↦
            let enabled : 0 < s.shard_cap = ground arith in
            let full : s.small_live + s.main_live ≡ s.shard_cap = ground (arith, w enabled) in
            let (t, step, p) =
              evict_one_lem raw s (record { valid = v; enabled = enabled; full = full }) in
            elim p.step [
              | inl left ↦
                  let room : 0 < t.shard_cap → t.small_live + t.main_live < t.shard_cap =
                    λ q. omega (arith, p.shrinks.cap, left.0) in
                  (
                    t,
                    next_lem (suc fuel) s t t enabled full step (done_lem fuel t room),
                    record {
                      valid = p.valid;
                      shrinks = p.shrinks;
                      room = room;
                      lost = inr (left.1, enabled, full);
                    },
                  )
              | inr moved ↦
                  let (u, rest, r) =
                    evict_loop_lem (suc fuel) t p.valid (λ q. omega (arith, p.shrinks.cap, moved.0))
                      (omega (arith, moved.1)) in
                  (
                    u,
                    next_lem (suc fuel) s t u enabled full step rest,
                    after s t u p.shrinks moved.2 enabled full r,
                  )
            ]
      ]
