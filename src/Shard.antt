-- ===== src/Shard.antt =====
-- `ShardData` of src/shard.rs: one shard's raw table with its S3-FIFO queues, and the eviction.
pub mod Invariant
pub mod Pop
pub mod Placed
pub mod Lookup
pub mod Evict
pub mod New
use neocache.Prelude.{
  ℕ, zero, suc, ◌+◌, ◌-◌, ◌/◌, max, Bool, true, false, Option, none, some, List, [], ◌∷◌, ◌++◌,
  length, leb, ltb, eqb, if◌then◌else◌, Run, ok, fault, no_fuel, dangling, ◌>>=◌, decrement,
}
use neocache.Entry.{CacheEntry, Loc, loc_small, loc_main}
use neocache.HashSet
use neocache.Table.{Key, RawTable, weigh}

-- What a slot of the raw table holds, and its hash.
abbrev pub Item : Type 0 → Type 0 → Type 0
Item K V = K × CacheEntry V

abbrev pub hash_item : {K V : Type 0} ⦃key : Key K⦄ → Item K V → ℕ
hash_item ⦃key⦄ e = key.hash_one e.0

pub record ShardData (T K : Type 0) : Type 0 where
  pub map : T
  pub small_hashes : List ℕ
  pub small_keys : List K
  pub main_hashes : List ℕ
  pub main_keys : List K
  pub ghost_set : List ℕ
  pub small_live : ℕ
  pub main_live : ℕ
  pub shard_cap : ℕ
  pub small_cap : ℕ
  pub main_cap : ℕ
  pub ghost_cap : ℕ

-- What popping a queue down to a live key gives: the rest of its two arrays, and the key with its
-- bucket unless the queue ran out.
pub data Popped (K B : Type 0) : Type 0 where
  exhausted : List ℕ → List K → Popped K B
  live : ℕ → K → B → List ℕ → List K → Popped K B

-- `div_ceil`
abbrev pub div_ceil : ℕ → ℕ → ℕ
div_ceil a b = (a + (b - 1)) / b

unfoldable pub small_cap_of : ℕ → ℕ
small_cap_of zero = 0
small_cap_of shard_cap = max (div_ceil shard_cap 10) 1

unfoldable pub main_cap_of : ℕ → ℕ
unfolding small_cap_of
main_cap_of zero = 0
main_cap_of shard_cap = max (shard_cap - small_cap_of shard_cap) 1

unfoldable pub total_live : {T K : Type 0} → ShardData T K → ℕ
total_live s = s.small_live + s.main_live

unfoldable pub add_to_ghost : {T K : Type 0} → ShardData T K → ℕ → ShardData T K
add_to_ghost s hash =
    let g = if leb s.ghost_cap (length s.ghost_set) then [] else s.ghost_set in
    record s { ghost_set = HashSet.insert hash g }

module _ {K V : Type 0} ⦃key : Key K⦄ (raw : RawTable (Item K V) hash_item) where
  open raw use {
    Table, Bucket, with_capacity, elements, contents, find, write, remove as remove_bucket,
  }

  abbrev pub Shard : Type 0
  Shard = ShardData Table K

  unfoldable pub new : ℕ → ℕ → Shard
  unfolding small_cap_of main_cap_of
  new map_cap shard_cap = record {
    map = with_capacity map_cap;
    small_hashes = [];
    small_keys = [];
    main_hashes = [];
    main_keys = [];
    ghost_set = [];
    small_live = 0;
    main_live = 0;
    shard_cap = shard_cap;
    small_cap = small_cap_of shard_cap;
    main_cap = main_cap_of shard_cap;
    ghost_cap = shard_cap;
  }

  -- The closure `|(mk, _)| mk == &k`.
  abbrev pub has_key : K → Item K V → Bool
  has_key k e = key.beq e.0 k

  -- `bucket.as_ref()`
  abbrev pub as_ref : Table → Bucket → Run (Item K V)
  as_ref t b = elim (contents t b) [ none ↦ fault dangling | some e ↦ ok e ]

  -- The inner loops of `evict_from_small` and `evict_from_main`. Both arrays are popped in each
  -- round, also in the last.
  unfoldable pub pop_live : Table → List ℕ → List K → Popped K Bucket
  pop_live t [] [] = exhausted [] []
  pop_live t [] (k ∷ ks) = exhausted [] ks
  pop_live t (h ∷ hs) [] = exhausted hs []
  pop_live t (h ∷ hs) (k ∷ ks) = elim (find t h (has_key k)) [
    | none ↦ pop_live t hs ks
    | some b ↦ live h k b hs ks
  ]

  -- The sum of the `freq` counters: each second chance takes one from it.
  abbrev pub total_freq : Table → ℕ
  total_freq t = weigh (λ e. e.1.freq) (elements t)

  -- A round of the outer loop of `evict_from_main`, behind its inner loop; `again` is the next.
  unfoldable pub main_round : (Shard → Run Shard) → Shard → Popped K Bucket → Run Shard
  main_round again s (exhausted hs ks) = ok (record s { main_hashes = hs; main_keys = ks })
  main_round again s (live h k b hs ks) = do
    e ← as_ref s.map b
    elim (ltb 0 e.1.freq) [
      | true ↦ again (record s {
        map = write s.map b (e.0, record e.1 { freq = e.1.freq - 1 });
        main_hashes = hs ++ h ∷ [];
        main_keys = ks ++ k ∷ [];
      })
      | false ↦ do
        n ← decrement s.main_live
        ok (record s {
          map = remove_bucket s.map b;
          main_hashes = hs;
          main_keys = ks;
          main_live = n;
        })
    ]

  unfoldable pub main_loop : ℕ → Shard → Run Shard
  unfolding main_round pop_live
  main_loop zero s = fault no_fuel
  main_loop (suc fuel) s = main_round (main_loop fuel) s (pop_live s.map s.main_hashes s.main_keys)

  unfoldable pub evict_from_main : Shard → Run Shard
  evict_from_main s = main_loop (suc (total_freq s.map)) s

  -- `evict_from_small` behind its loop: promotion, or eviction to the ghost set.
  unfoldable pub small_round : Shard → Popped K Bucket → Run Shard
  unfolding add_to_ghost
  small_round s (exhausted hs ks) =
      evict_from_main (record s { small_hashes = hs; small_keys = ks })
  small_round s (live h k b hs ks) = do
    e ← as_ref s.map b
    elim (ltb 0 e.1.freq) [
      | true ↦ do
        n ← decrement s.small_live
        ok (record s {
          map = write s.map b (e.0, record e.1 { loc = loc_main });
          small_hashes = hs;
          small_keys = ks;
          small_live = n;
          main_hashes = s.main_hashes ++ h ∷ [];
          main_keys = s.main_keys ++ k ∷ [];
          main_live = s.main_live + 1;
        })
      | false ↦ do
        n ← decrement s.small_live
        ok (
            add_to_ghost
              (record s {
                map = remove_bucket s.map b;
                small_hashes = hs;
                small_keys = ks;
                small_live = n;
              })
              h)
    ]

  unfoldable pub evict_from_small : Shard → Run Shard
  unfolding small_round
  evict_from_small s = small_round s (pop_live s.map s.small_hashes s.small_keys)

  unfoldable pub evict_one : Shard → Run Shard
  evict_one s = if leb s.small_cap s.small_live then evict_from_small s else evict_from_main s

  -- `while shard_cap > 0 && total_live() >= shard_cap { evict_one() }`
  unfoldable pub evict_loop : ℕ → Shard → Run Shard
  unfolding total_live
  evict_loop zero s = fault no_fuel
  evict_loop (suc fuel) s =
      let next = evict_one s >>= evict_loop fuel in
      if ltb 0 s.shard_cap then (if leb s.shard_cap (total_live s) then next else ok s) else ok s
