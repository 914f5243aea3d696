-- ===== src/Map/Insert/Lost.antt =====
-- What making room for a new key costs, and the step before it.
use neocache.HashSet
use neocache.Prelude.{
  ℕ, ◌+◌, ◌<◌, ◌≡◌, ◌≢◌, ap, ◌⊎◌, inl, inr, Option, some, none, arith, to_nat, Bool-cases,
}
use neocache.Shard.{Item, hash_item, Shard}
use neocache.Shard.Invariant.{is_key, IsValid, Same, Loses}
use neocache.Table.{Key, RawTable, weigh}

module _ {K V : Type 0} ⦃key : Key K⦄ (raw : RawTable (Item K V) hash_item) where
  open raw use {elements}

  -- The key that making room has cost, if it has cost one.
  abbrev pub Lost : Shard raw → Shard raw → Type 0
  Lost s t =
      Same raw s t
      ⊎ (Loses raw s t × (0 < s.shard_cap) × (s.small_live + s.main_live ≡ s.shard_cap))

  unfoldable pub lost_key : (s t : Shard raw) → Lost s t → Option K
  lost_key s t (inl same) = none
  lost_key s t (inr (l, enabled, full)) = some l.victim.0

  pub Lost-full :
      (s t : Shard raw) (l : Lost s t) (j : K)
      → lost_key s t l ≡ some j
      → (0 < s.shard_cap) × (s.small_live + s.main_live ≡ s.shard_cap)
  unfolding lost_key
  Lost-full s t (inl same) j h = absurd (ground (arith, h))
  Lost-full s t (inr (l, enabled, full)) j h = (enabled, full)

  pub Lost-spares :
      (s t : Shard raw) (l : Lost s t) (j : K)
      → lost_key s t l ≢ some j
      → weigh (is_key j) (elements t.map) ≡ weigh (is_key j) (elements s.map)
  unfolding lost_key
  Lost-spares s t (inl same) j safe = same (λ i _. to_nat (key.beq i j))
  Lost-spares s t (inr (l, enabled, full)) j safe = elim (Bool-cases (key.beq l.victim.0 j)) [
    | inl hit ↦ absurd (safe (ap some ((key.beq_iff l.victim.0 j).0 hit)))
    | inr apart ↦ ground (arith, apart, l.less (λ i _. to_nat (key.beq i j)))
  ]

  pub ghost_taken-IsValid :
      (s : Shard raw)
      → IsValid raw s
      → (hash : ℕ) → IsValid raw (record s { ghost_set = HashSet.remove hash s.ghost_set })
  ghost_taken-IsValid s v hash = record {
    paired_small = v.paired_small;
    paired_main = v.paired_main;
    placed = v.placed;
    covered = v.covered;
    slack_small = v.slack_small;
    slack_main = v.slack_main;
    caps = v.caps;
    ghosts = (v.ghosts.0, omega (arith, v.ghosts.1, HashSet.length-remove-le hash s.ghost_set));
  }
