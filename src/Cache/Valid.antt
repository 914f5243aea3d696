-- ===== src/Cache/Valid.antt =====
-- The well-formedness of a cache, its abstract map, and the step from a shard to the cache.
use neocache.Cache.{Cache, shard_at, put_shard, on_shard}
use neocache.Cache.At.{
  shard_at-lt, shard_at-All, put_shard-All, length-put_shard, shard_at-put_self, shard_at-put_ne,
}
use neocache.Config.{determine_shard}
use neocache.Prelude.{
  ℕ, ◌<◌, ◌≡◌, ◌≢◌, sym, ◌∙◌, ap, Option, none, length, All, ok, fault, arith, Returns, Run,
}
use neocache.Shard.{Item, hash_item, Shard}
use neocache.Shard.Invariant.{IsValid, IsWithin}
use neocache.Shard.Lookup.{lookup}
use neocache.Table.{Key, RawTable}
use native.Mathlib.Decide.{ℕ_discrete}

module _ {K V : Type 0} ⦃key : Key K⦄ (raw : RawTable (Item K V) hash_item) where
  -- A well-formed shard of capacity `cap`.
  abbrev pub IsGood : ℕ → Shard raw → Type 0
  IsGood cap s = IsValid raw s × IsWithin raw s × (s.shard_cap ≡ cap)

  -- The index of a key's shard.
  abbrev pub index : Cache raw → K → ℕ
  index c k = determine_shard c.shift (key.hash_one k)

  -- Every shard is well-formed with the capacity `cap`, every hash selects one, and a key is stored
  -- in no other shard than its own.
  pub record IsCacheValid (cap : ℕ) (c : Cache raw) : Type 0 where
    pub good : All (IsGood cap) c.shards
    pub selects : (hash : ℕ) → determine_shard c.shift hash < length c.shards
    pub home :
        (i : ℕ) (s : Shard raw) (j : K)
        → shard_at c.shards i ≡ ok s
        → i ≢ index c j
        → lookup raw s.map j ≡ none

  -- An operation on the key `k` adds no other key to the shard.
  abbrev pub AddsOnly : K → Shard raw → Shard raw → Type 0
  AddsOnly k s t = (j : K) → j ≢ k → lookup raw s.map j ≡ none → lookup raw t.map j ≡ none

  abbrev value_in : K → Run (Shard raw) → Option V
  value_in k (ok s) = lookup raw s.map k
  value_in k (fault e) = none

  -- The abstract map of a cache.
  pub value_at : Cache raw → K → Option V
  value_at c k = value_in k (shard_at c.shards (index c k))

  pub value_at-ok :
      (c : Cache raw) (k : K) (s : Shard raw)
      → shard_at c.shards (index c k) ≡ ok s
      → value_at c k ≡ lookup raw s.map k
  unfolding value_at
  value_at-ok c k s here = ap (value_in k) here

  -- The work of a keyed operation on its shard.
  pub record Worked {R : Type 0} (cap : ℕ) (c : Cache raw) (k : K)
      (P : Shard raw → Shard raw × R → Type 0) (r : Cache raw × R) : Type 0 where
    pub before : Shard raw
    pub next : Shard raw
    pub effect : P before (next, r.1)
    pub sized : before.shard_cap ≡ cap
    pub own :
        (j : K)
        → index c j ≡ index c k
        → (value_at c j ≡ lookup raw before.map j) × (value_at r.0 j ≡ lookup raw next.map j)
    pub apart : (j : K) → index c j ≢ index c k → value_at r.0 j ≡ value_at c j
    pub stands : shard_at r.0.shards (index c k) ≡ ok next
    pub valid : IsCacheValid cap r.0
    pub count : length r.0.shards ≡ length c.shards

  module _ {R : Type 0} (cap : ℕ) (c : Cache raw) (k : K) (f : Shard raw → Run (Shard raw × R))
      (P : Shard raw → Shard raw × R → Type 0)
      (works : (s : Shard raw)
        → shard_at c.shards (index c k) ≡ ok s
        → IsValid raw s
        → IsWithin raw s
        → s.shard_cap ≡ cap
        → Returns (f s) (λ r. P s r × IsGood s.shard_cap r.0 × AddsOnly k s r.0)) where
    pub on_shard-Worked : IsCacheValid cap c → Returns (on_shard raw c k f) (Worked cap c k P)
    unfolding on_shard value_at
    on_shard-Worked v =
        let i = index c k in
        let low = v.selects (key.hash_one k) in
        let (s, here) = shard_at-lt c.shards i low in
        let (valid, within, at) = shard_at-All (IsGood cap) c.shards i s v.good here in
        let (r, run, (p, good, adds)) = works s here valid within at in
        let c' : Cache raw = record c { shards = put_shard c.shards i r.0 } in
        let good' : IsGood cap r.0 = (good.0, good.1, good.2 ∙ at) in
        (
          (c', r.1),
          ground (arith, here, run),
          record {
            before = s;
            next = r.0;
            effect = p;
            sized = at;
            own = λ j same.
                let was : shard_at c.shards (index c j) ≡ ok s = rw same here in
                let is : shard_at c'.shards (index c j) ≡ ok r.0 =
                  rw same (shard_at-put_self c.shards i r.0 low) in
                (ap (value_in j) was, ap (value_in j) is);
            apart = λ j other. rw (shard_at-put_ne c.shards i (index c j) r.0 other);
            stands = shard_at-put_self c.shards i r.0 low;
            count = length-put_shard c.shards i r.0;
            valid = record {
              good = put_shard-All (IsGood cap) c.shards i r.0 v.good good';
              selects = λ h. rw (length-put_shard c.shards i r.0) (v.selects h);
              home = λ n t j there away. elim (ℕ_discrete n i) [
                | yes same ↦
                    let now : ok r.0 ≡ ok t =
                      sym (shard_at-put_self c.shards i r.0 low) ∙ rw same at there in
                    let is : r.0 ≡ t = ground (arith, now) in
                    let absent = v.home i s j here (λ e. away (same ∙ e)) in
                    let apart : j ≢ k = λ e. away (same ∙ ap (index c) (sym e)) in
                    rw (← is) (adds j apart absent)
                | no other ↦
                    v.home n t j (sym (shard_at-put_ne c.shards i n r.0 other) ∙ there) away
              ];
            };
          },
        )
