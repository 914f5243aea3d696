-- ===== src/Lib.antt =====
-- neocache: a concurrent hash map in shards with S3-FIFO eviction.
--
-- A cache (src/lib.rs) is a row of shards behind locks. A key's hash selects a shard; each operation
-- takes that shard's lock, works on the shard, and releases it. A shard (src/shard.rs) is hashbrown's
-- raw table with two queues of keys, small and main, a counter of live entries for each, and a set of
-- ghost hashes. A new key goes into the small queue, or into the main queue if its hash is a ghost. An
-- insertion into a full shard evicts first: small keys that were used are promoted, others become
-- ghosts; main keys that were used get a second chance. Removals leave their key in the queue, and
-- eviction skips what it no longer finds.
--
-- What models what:
--   Prelude   shared names; Prelude/Outcome has `Run`, the result of code that can go wrong: a `usize`
--             subtraction below zero, a raw bucket without element, fuel that ran out, or a panic.
--   Table     the parts that the crate uses and does not contain: a key with its equality and hasher
--             (`Key`), and hashbrown's `RawTable`, a record of its operations with their laws. Tests/
--             Slots fills it with a table of slots, on which the tests run.
--   Entry     `CacheEntry` of src/util.rs: `new`, `bump_freq`.
--   HashSet   the standard library's set of hashes, for the ghosts.
--   Shard     `ShardData` of src/shard.rs: `new`, `total_live`, `evict_one`, `evict_from_small`,
--             `evict_from_main`, `add_to_ghost`. The inner loops of the two evictions, which pop a
--             queue up to a live key, are `pop_live`; what follows them is `small_round` and
--             `main_round`. `evict_loop` is the `while` loop of `_insert` in src/lib.rs.
--   Map       the operations `_insert`, `_remove`, `_remove_if`, `_remove_if_mut`, `_get`, `_get_mut`,
--             `_try_get`, `_try_get_mut`, `_view`, `_alter`, `_retain`, `_alter_all`, `_len` of
--             src/lib.rs and `clear_all` of src/shard.rs on the selected shard. The two decrements by
--             `saturating_sub` are `release`, the pushes on a queue `enqueue`.
--   MapRef    the entry API of src/mapref/entry.rs: OccupiedEntry in MapRef/Occupied, VacantEntry in
--             MapRef/Vacant, Entry in MapRef/Api. MapRef/Guard has the guards of src/mapref/one.rs: a
--             mapped guard points to a place inside the value of its bucket. A closure that gets a
--             `&mut` answers with what it leaves there, next to the place that it returns. MapRef/
--             Multi has the guards of src/mapref/multiple.rs, which the iterators give: a shard's
--             index and a bucket.
--   TryResult src/try_result.rs.
--   Config    the arithmetic of the constructor and of `determine_shard` in src/lib.rs.
--   Cache     `NeoCache` of src/lib.rs: the shards together, the constructor, and the operations
--             `insert`, `remove`, `contains_key`, `len`, `is_empty`, `clear`, `extend` and three of
--             the operators. Cache/Keyed has the other operations that take a key, Cache/Whole those
--             on all shards and the other constructors, Cache/Resize `shrink_to_fit` and `try_reserve`,
--             Cache/Copy `clone`. Cache/History has runs of calls, and the map that such a run is held
--             against.
--   Lock      `RawRwLock` of src/lock.rs, one access to the state word per step: `Pc` says where a
--             thread stands in a method and what its local variables hold, `step` makes its next
--             access. Lock/System has any number of threads over one lock, in every interleaving, with
--             park and unpark as parking_lot_core documents them. Masks are read as arithmetic: the
--             two lowest bits are the parked bits, and the word over 4 is the number of readers, or
--             `top`, all ones, for a writer.
--   Serde     src/ser.rs: the serializer, and the reader of a document, are parameters, each with its
--             own state and errors.
--   ReadOnly  the lookups and the iteration of src/read_only.rs.
--   Iter      `Iter` of src/iter.rs; Iter/Owning has `OwningIter`, which takes the raw tables out of
--             the shards, and Iter/Mutable `IterMut`, whose items are a shard's index and a bucket.
--             Iter/Guards counts the references to the lock guards that the iterators share with their
--             items.
--   Tests     runs and instances on concrete shards.
--
-- The abstract view of a shard is `lookup`, a function from keys to optional values, and of a cache
-- `value_at`. `IsValid` of Shard/Invariant is the invariant of a shard: no key is stored twice, each
-- stored key stands in the queue that its `loc` names, the two arrays of a queue are in step, no
-- frequency passes its cap, and the counters cover the stored entries together. A counter can differ
-- from the number of entries of its queue, since a key that was removed and inserted again stands in
-- a queue twice; the invariant bounds the difference, and that is enough for eviction to succeed.
--
-- `IsCacheValid` of Cache/Valid is the invariant of a cache: its shards are well-formed and of one
-- capacity, every hash selects one of them, and a key is stored in no shard but the one it selects.
--
-- Fuel: a second chance in the main queue takes one from the sum of the frequencies, so `main_loop`
-- has that sum and one more; a step of `evict_loop` evicts or makes the small queue shorter, so it has
-- the length of that queue and two more. Numbers are unbounded except in `determine_shard` and the
-- state word of Lock, which wrap at 2 ^ 64: the counters and capacities are assumed to fit in a
-- `usize`.
--
-- Assumed of other code: equality of keys is identity and the hasher gives one 64-bit hash for a key;
-- a borrowed key stands for the key; the raw table obeys the laws of `RawTable`, among them that a
-- slot for insertion stays good over removals and writes, as the comments in the sources have it. That
-- the reader of a document gives back the entries from which the document was made is a matter of the
-- data format: the round trip through src/ser.rs has it as a condition.
--
-- Fuel of `next_loop` in Iter, Iter/Owning, Iter/Mutable and Iter/Guards is one more than the number
-- of shards, one for each shard that it opens. A loop over an iterator has fuel of more than there are
-- entries.
--
-- Of the lock: the accesses are sequentially consistent, the orderings Acquire, Release and Relaxed
-- are not modelled; a parked thread may wake for no reason, a weak compare-exchange may fail for none,
-- and `spin` answers anything; and there are fewer threads than `top`, 2 ^ 62 - 1, since one more
-- reader would be a writer. The operations on a shard are modelled between taking and releasing its
-- lock, where no other thread touches the shard.
--
-- A run of calls in Cache/History is the order in which the threads' operations take their locks: each
-- keyed operation works on one shard. `alter_all`, `retain` and `clear`, which lock one shard after
-- the other, stand in such a run as one call each.
--
-- Fuel in Serde is one more than there are entries to write or to read, one for each turn of a loop.
--
-- Not modelled: other threads between the shards of an operation on all shards, formatting, and rayon,
-- to which the crate hands an iterator.
pub mod Prelude
pub mod Entry
pub mod HashSet
pub mod Table
pub mod Shard
pub mod TryResult
pub mod Config
pub mod Map
pub mod MapRef
pub mod Cache
pub mod ReadOnly
pub mod Serde
pub mod Iter
pub mod Lock
pub mod Tests
