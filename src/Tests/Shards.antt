-- ===== src/Tests/Shards.antt =====
-- Shards of numbers at a capacity of four, run and put under the theorems.
use neocache.Entry
use neocache.Entry.{bump_freq}
use neocache.HashSet
use neocache.Map.{insert_new, insert, remove, remove_found, release, enqueue, get, len}
use neocache.Prelude.{ℕ, ◌≡◌, refl, ◌<◌, ◌^◌, ◌%◌, eqb, true, Run, ok, ◌>>=◌, arith, ◌↔◌}
use neocache.Shard.{
  Item, hash_item, Shard, new, pop_live, main_round, main_loop, evict_from_main, small_round,
  evict_from_small, evict_one, evict_loop, add_to_ghost, total_live, small_cap_of, main_cap_of,
}
use neocache.Shard.Invariant.{small_weight}
use neocache.Table.{Key, RawTable, weigh}
use neocache.Tests.Slots.{slots}

pub eqb_iff : (a b : ℕ) → (eqb a b ≡ true) ↔ (a ≡ b)
eqb_iff a b = ground arith

pub small_hash-lt : (a : ℕ) → a % 2 ^ 64 < 2 ^ 64
small_hash-lt a = omega arith

instance abbrev pub number_key : Key ℕ
number_key = record {
  beq = eqb;
  beq_iff = eqb_iff;
  hash_one = λ a. a % 2 ^ 64;
  hash-lt = small_hash-lt;
}

abbrev pub raw : RawTable (Item ℕ ℕ) hash_item
raw = slots hash_item

program : Unit {0}
unfolding weigh Entry.new bump_freq HashSet.contains HashSet.insert HashSet.remove insert_new insert
    remove remove_found release enqueue get len new pop_live main_round main_loop evict_from_main
    small_round evict_from_small evict_one evict_loop add_to_ghost total_live small_cap_of
    main_cap_of
program = tt

-- Five insertions at a capacity of four, then a look at what is left.
abbrev five : Run (ℕ × ℕ × ℕ)
five = do
  let s₀ : Shard raw = new raw 0 4
  (s₁, _) ← insert raw s₀ 1 10
  (s₁', _) ← get raw s₁ 1
  (s₂, _) ← insert raw s₁' 2 20
  (s₃, _) ← insert raw s₂ 3 30
  (s₄, _) ← insert raw s₃ 4 40
  (s₅, _) ← insert raw s₄ 5 50
  ok (len raw s₅, s₅.small_live, s₅.main_live)

five-runs : five ≡ ok (4, 3, 1)
unfolding program
five-runs = refl

-- Key 1 is removed and inserted again, so that it stands twice in the small queue and is promoted
-- twice: then three of the four entries are small, and `small_live` is 2.
abbrev drifted : Run (ℕ × ℕ × ℕ × ℕ)
drifted = do
  let s₀ : Shard raw = new raw 0 4
  (s₁, _) ← insert raw s₀ 1 10
  (s₂, _) ← remove raw s₁ 1
  (s₃, _) ← insert raw s₂ 1 11
  (s₄, _) ← get raw s₃ 1
  (s₅, _) ← insert raw s₄ 2 20
  (s₆, _) ← insert raw s₅ 3 30
  (s₇, _) ← insert raw s₆ 4 40
  (s₈, _) ← insert raw s₇ 5 50
  ok (len raw s₈, weigh small_weight (raw.elements s₈.map), s₈.small_live, s₈.main_live)

drifted-runs : drifted ≡ ok (4, 3, 2, 2)
unfolding program
drifted-runs = refl
