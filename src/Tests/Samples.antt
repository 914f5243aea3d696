-- ===== src/Tests/Samples.antt =====
-- Shards of capacity four: a full one, an empty one, and one with all entries in the main queue.
use neocache.Entry.{loc_small, loc_main}
use neocache.Prelude.{refl, some, [], ◌∷◌, arith}
use neocache.Shard.{Shard}
use neocache.Shard.Evict.{CanEvictMain}
use neocache.Shard.Invariant.{occ, IsValid, IsWithin}
use neocache.Table.{weigh}
use neocache.Tests.Shards.{number_key, raw}

-- Key 2 has been used once, and 9 is a ghost.
abbrev pub mixed : Shard raw
mixed = record {
  map =
      some (1, record { value = 10; freq = 0; loc = loc_main })
      ∷ some (2, record { value = 20; freq = 1; loc = loc_small })
      ∷ some (3, record { value = 30; freq = 0; loc = loc_small })
      ∷ some (4, record { value = 40; freq = 0; loc = loc_main })
      ∷ [];
  small_hashes = 2 ∷ 3 ∷ [];
  small_keys = 2 ∷ 3 ∷ [];
  main_hashes = 1 ∷ 4 ∷ [];
  main_keys = 1 ∷ 4 ∷ [];
  ghost_set = 9 ∷ [];
  small_live = 2;
  main_live = 2;
  shard_cap = 4;
  small_cap = 1;
  main_cap = 3;
  ghost_cap = 4;
}

pub mixed-IsValid : IsValid raw mixed
unfolding weigh occ
mixed-IsValid = record {
  paired_small = refl;
  paired_main = refl;
  placed = record {
    unique = λ k. ground arith;
    queued_small = λ k. ground arith;
    queued_main = λ k. ground arith;
    calm = refl;
  };
  covered = omega arith;
  slack_small = omega arith;
  slack_main = λ p. omega arith;
  caps = λ p. (omega arith, omega arith);
  ghosts = (refl, omega arith);
}

pub mixed-IsWithin : IsWithin raw mixed
mixed-IsWithin p = omega arith

-- No entries.
abbrev pub spare : Shard raw
spare = record {
  map = [];
  small_hashes = [];
  small_keys = [];
  main_hashes = [];
  main_keys = [];
  ghost_set = [];
  small_live = 0;
  main_live = 0;
  shard_cap = 4;
  small_cap = 1;
  main_cap = 3;
  ghost_cap = 4;
}

pub spare-IsValid : IsValid raw spare
unfolding weigh occ
spare-IsValid = record {
  paired_small = refl;
  paired_main = refl;
  placed = record {
    unique = λ k. ground arith;
    queued_small = λ k. ground arith;
    queued_main = λ k. ground arith;
    calm = refl;
  };
  covered = omega arith;
  slack_small = omega arith;
  slack_main = λ p. omega arith;
  caps = λ p. (omega arith, omega arith);
  ghosts = (refl, omega arith);
}

pub spare-IsWithin : IsWithin raw spare
spare-IsWithin p = omega arith

-- Key 1 has been used twice.
abbrev pub main_only : Shard raw
main_only = record {
  map =
      some (1, record { value = 10; freq = 2; loc = loc_main })
      ∷ some (2, record { value = 20; freq = 0; loc = loc_main })
      ∷ some (3, record { value = 30; freq = 0; loc = loc_main })
      ∷ [];
  small_hashes = [];
  small_keys = [];
  main_hashes = 1 ∷ 2 ∷ 3 ∷ [];
  main_keys = 1 ∷ 2 ∷ 3 ∷ [];
  ghost_set = [];
  small_live = 0;
  main_live = 3;
  shard_cap = 4;
  small_cap = 1;
  main_cap = 3;
  ghost_cap = 4;
}

pub main_only-CanEvictMain : CanEvictMain raw main_only
unfolding weigh occ
main_only-CanEvictMain = record {
  valid = record {
    paired_small = refl;
    paired_main = refl;
    placed = record {
      unique = λ k. ground arith;
      queued_small = λ k. ground arith;
      queued_main = λ k. ground arith;
      calm = refl;
    };
    covered = omega arith;
    slack_small = omega arith;
    slack_main = λ p. omega arith;
    caps = λ p. (omega arith, omega arith);
    ghosts = (refl, omega arith);
  };
  enabled = omega arith;
  few_small = omega arith;
  some_main = omega arith;
  stored_main = omega arith;
}
