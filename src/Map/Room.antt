-- ===== src/Map/Room.antt =====
-- `_insert` where nothing has to be evicted: an update, or a new key in a shard with room.
use neocache.Map.{insert}
use neocache.Map.Spec.{Becomes, updated, updated_lem}
use neocache.Map.Store.{insert-Stored}
use neocache.Prelude.{◌+◌, ◌<◌, ◌≡◌, ◌≢◌, inl, inr, some, none, arith, Option-cases, Returns}
use neocache.Shard.{Item, hash_item, Shard}
use neocache.Shard.Invariant.{IsValid, IsWithin}
use neocache.Shard.Lookup.{lookup}
use neocache.Table.{Key, RawTable}

module _ {K V : Type 0} ⦃key : Key K⦄ (raw : RawTable (Item K V) hash_item) where
  -- The shard has room for one more entry, or eviction is disabled.
  abbrev pub HasSpace : Shard raw → Type 0
  HasSpace s = 0 < s.shard_cap → s.small_live + s.main_live < s.shard_cap

  module _ (s : Shard raw) (k : K) (value : V)
      (space : lookup raw s.map k ≡ none → HasSpace s) where
    -- On a well-formed shard within its capacity, which has room for one more entry or stores the
    -- key already, `insert` returns. It answers with the value that the key had, gives it the new
    -- value, and no other stored value changes.
    pub insert-Becomes :
        IsValid raw s
        → IsWithin raw s
        → Returns
            (insert raw s k value)
            (Becomes raw s (updated (lookup raw s.map) k (some value)) (lookup raw s.map k))
    insert-Becomes v within =
        let (r, run, p) = insert-Stored raw s v within k value in
        let no_victim : p.victim ≡ none = elim (Option-cases p.victim) [
          | inl safe ↦ safe
          | inr (j, lost) ↦
              let (new, enabled, full) = p.full j lost in
              absurd (omega (arith, space new enabled, full))
        ] in
        let same_others : (j : K) → j ≢ k → lookup raw r.0.map j ≡ lookup raw s.map j =
          λ j other. p.spares j other (λ q. ground (arith, no_victim, q)) in
        (
          r,
          run,
          record {
            valid = p.valid;
            within = p.within;
            cap = p.cap;
            returns = p.returns;
            map =
                updated_lem (lookup raw s.map) (lookup raw r.0.map) k (some value) p.stored
                  same_others;
          },
        )
