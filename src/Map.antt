-- ===== src/Map.antt =====
-- The operations of src/lib.rs on the shard that a key selects, between taking and releasing its
-- lock. A `Ref` or `RefMut` is the bucket that it points into.
pub mod Change
pub mod Insert
pub mod Store
pub mod Room
pub mod Spec
pub mod Write
pub mod Take
pub mod TakeIf
pub mod Read
pub mod Each
pub mod Retain
pub mod Clear
use neocache.Entry.{CacheEntry, Loc, loc_small, loc_main, is_small, bump_freq}
use neocache.Entry
use neocache.HashSet
use neocache.Prelude.{
  ℕ, suc, ◌+◌, ◌-◌, Bool, true, false, Option, none, some, List, [], ◌∷◌, ◌++◌, length,
  if◌then◌else◌, Run, ok, ◌>>=◌,
}
use neocache.Shard.{Item, hash_item, Shard, ShardData, has_key, as_ref, evict_loop}
use neocache.Table.{Key, RawTable, occupied, vacant}
use neocache.TryResult.{TryResult, present, absent, locked}

-- `saturating_sub(1)` on the counter of the entry's queue.
unfoldable pub release : {T K : Type 0} → ShardData T K → Loc → ShardData T K
release s loc_small = record s { small_live = s.small_live - 1 }
release s loc_main = record s { main_live = s.main_live - 1 }

-- A new key goes to the back of its queue and is counted there.
unfoldable pub enqueue : {T K : Type 0} → ShardData T K → Loc → ℕ → K → ShardData T K
enqueue s loc_main hash k = record s {
  main_hashes = s.main_hashes ++ hash ∷ [];
  main_keys = s.main_keys ++ k ∷ [];
  main_live = s.main_live + 1;
}
enqueue s loc_small hash k = record s {
  small_hashes = s.small_hashes ++ hash ∷ [];
  small_keys = s.small_keys ++ k ∷ [];
  small_live = s.small_live + 1;
}

module _ {K V : Type 0} ⦃key : Key K⦄ (raw : RawTable (Item K V) hash_item) where
  open raw use {
    Table, Bucket, InsertSlot, contents, find, find_or_find_insert_slot, write, insert_in_slot,
    remove as remove_bucket, iter, elements,
  }

  -- The new-key branch of `_insert`, and the body of `VacantEntry::insert`.
  unfoldable pub insert_new : Shard raw → ℕ → K → InsertSlot → V → Run (Shard raw × Bucket)
  unfolding enqueue Entry.new
  insert_new s hash k slot value = do
    let loc = if HashSet.contains hash s.ghost_set then loc_main else loc_small
    let s₁ = record s { ghost_set = HashSet.remove hash s.ghost_set }
    s₂ ← evict_loop raw (suc (suc (length s₁.small_keys))) s₁
    let (t, b) = insert_in_slot s₂.map hash slot (k, Entry.new value loc)
    ok (enqueue (record s₂ { map = t }) loc hash k, b)

  unfoldable pub insert : Shard raw → K → V → Run (Shard raw × Option V)
  unfolding insert_new
  insert s k value = do
    let hash = key.hash_one k
    let (t, probe) = find_or_find_insert_slot s.map hash (has_key raw k)
    elim probe [
      | occupied b ↦ do
        e ← as_ref raw t b
        ok (record s { map = write t b (e.0, record e.1 { value = value }) }, some e.1.value)
      | vacant slot ↦ do
        (s', _) ← insert_new (record s { map = t }) hash k slot value
        ok (s', none)
    ]

  unfoldable pub remove_found : Shard raw → Bucket → Run (Shard raw × Option (K × V))
  unfolding release
  remove_found s b = do
    e ← as_ref raw s.map b
    ok (release (record s { map = remove_bucket s.map b }) e.1.loc, some (e.0, e.1.value))

  unfoldable pub remove : Shard raw → K → Run (Shard raw × Option (K × V))
  unfolding remove_found
  remove s k = elim (find s.map (key.hash_one k) (has_key raw k)) [
    | none ↦ ok (s, none)
    | some b ↦ remove_found s b
  ]

  unfoldable pub remove_if : Shard raw → K → (K → V → Bool) → Run (Shard raw × Option (K × V))
  unfolding remove_found
  remove_if s k f = elim (find s.map (key.hash_one k) (has_key raw k)) [
    | none ↦ ok (s, none)
    | some b ↦ do e ← as_ref raw s.map b; if f e.0 e.1.value then remove_found s b else ok (s, none)
  ]

  -- The predicate also writes the value, and what it wrote stays if it answers `false`.
  unfoldable pub remove_if_mut :
      Shard raw → K → (K → V → Bool × V) → Run (Shard raw × Option (K × V))
  unfolding remove_found
  remove_if_mut s k f = elim (find s.map (key.hash_one k) (has_key raw k)) [
    | none ↦ ok (s, none)
    | some b ↦ do
      e ← as_ref raw s.map b
      let (gone, v) = f e.0 e.1.value
      let s' = record s { map = write s.map b (e.0, record e.1 { value = v }) }
      if gone then remove_found s' b else ok (s', none)
  ]

  unfoldable pub get : Shard raw → K → Run (Shard raw × Option Bucket)
  unfolding bump_freq
  get s k = elim (find s.map (key.hash_one k) (has_key raw k)) [
    | none ↦ ok (s, none)
    | some b ↦ do
      e ← as_ref raw s.map b
      ok (record s { map = write s.map b (e.0, bump_freq e.1) }, some b)
  ]

  -- The same under the write lock; the caller may write through the bucket.
  unfoldable pub get_mut : Shard raw → K → Run (Shard raw × Option Bucket)
  unfolding bump_freq
  get_mut s k = elim (find s.map (key.hash_one k) (has_key raw k)) [
    | none ↦ ok (s, none)
    | some b ↦ do
      e ← as_ref raw s.map b
      ok (record s { map = write s.map b (e.0, bump_freq e.1) }, some b)
  ]

  -- `acquired` says whether the lock was free.
  unfoldable pub try_get : Bool → Shard raw → K → Run (Shard raw × TryResult Bucket)
  unfolding bump_freq
  try_get false s k = ok (s, locked)
  try_get true s k = elim (find s.map (key.hash_one k) (has_key raw k)) [
    | none ↦ ok (s, absent)
    | some b ↦ do
      e ← as_ref raw s.map b
      ok (record s { map = write s.map b (e.0, bump_freq e.1) }, present b)
  ]

  -- The same on the write lock.
  unfoldable pub try_get_mut : Bool → Shard raw → K → Run (Shard raw × TryResult Bucket)
  unfolding bump_freq
  try_get_mut false s k = ok (s, locked)
  try_get_mut true s k = elim (find s.map (key.hash_one k) (has_key raw k)) [
    | none ↦ ok (s, absent)
    | some b ↦ do
      e ← as_ref raw s.map b
      ok (record s { map = write s.map b (e.0, bump_freq e.1) }, present b)
  ]

  -- `Ref::pair`
  unfoldable pub pair : Shard raw → Bucket → Run (K × V)
  pair s b = do e ← as_ref raw s.map b; ok (e.0, e.1.value)

  unfoldable pub contains_key : Shard raw → K → Run (Shard raw × Bool)
  unfolding get
  contains_key s k = do (s', r) ← get s k; ok (s', elim r [ none ↦ false | some _ ↦ true ])

  unfoldable pub view {ℓ} : {R : Type ℓ} → Shard raw → K → (K → V → R) → Run (Shard raw × Option R)
  unfolding get pair
  view s k f = do
    (s', r) ← get s k
    elim r [ none ↦ ok (s', none) | some b ↦ do p ← pair s' b; ok (s', some (f p.0 p.1)) ]

  -- `map_in_place_2` on the value behind a bucket.
  unfoldable pub map_in_place : Shard raw → (K → V → V) → Bucket → Run (Shard raw)
  map_in_place s f b = do
    e ← as_ref raw s.map b
    ok (record s { map = write s.map b (e.0, record e.1 { value = f e.0 e.1.value }) })

  unfoldable pub alter : Shard raw → K → (K → V → V) → Run (Shard raw)
  unfolding get_mut map_in_place
  alter s k f = do (s', r) ← get_mut s k; elim r [ none ↦ ok s' | some b ↦ map_in_place s' f b ]

  -- The body of the loop of `_retain`.
  unfoldable pub retain_one : (K → V → Bool × V) → Shard raw → Bucket → Run (Shard raw)
  unfolding release
  retain_one f s b = do
    e ← as_ref raw s.map b
    let (stays, v) = f e.0 e.1.value
    let t = write s.map b (e.0, record e.1 { value = v })
    if stays
        then ok (record s { map = t })
        else ok (release (record s { map = remove_bucket t b }) e.1.loc)

  -- A `for` loop over buckets.
  unfoldable pub for_each :
      (Shard raw → Bucket → Run (Shard raw)) → List Bucket → Shard raw → Run (Shard raw)
  for_each body [] s = ok s
  for_each body (b ∷ bs) s = body s b >>= for_each body bs

  unfoldable pub retain : Shard raw → (K → V → Bool × V) → Run (Shard raw)
  unfolding for_each retain_one
  retain s f = for_each (retain_one f) (iter s.map) s

  -- `iter_mut` with `map_in_place_2`, on one shard.
  unfoldable pub alter_all : Shard raw → (K → V → V) → Run (Shard raw)
  unfolding for_each map_in_place
  alter_all s f = for_each (λ t b. map_in_place t f b) (iter s.map) s

  -- `ShardData::clear_all`
  unfoldable pub erase_all : List Bucket → Table → Table
  erase_all [] t = t
  erase_all (b ∷ bs) t = erase_all bs (remove_bucket t b)

  unfoldable pub clear_all : Shard raw → Shard raw
  unfolding erase_all
  clear_all s = record s {
    map = erase_all (iter s.map) s.map;
    small_hashes = [];
    small_keys = [];
    main_hashes = [];
    main_keys = [];
    ghost_set = [];
    small_live = 0;
    main_live = 0;
  }

  unfoldable pub len : Shard raw → ℕ
  len s = length (elements s.map)
