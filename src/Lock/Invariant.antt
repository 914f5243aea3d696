-- ===== src/Lock/Invariant.antt =====
-- What ties the state word of a lock to where its threads stand.
use neocache.Lock.{
  Pc, reading, writing, panicked, load_exclusive, try_exclusive, park_exclusive, parked_exclusive,
  load_unlock, cas_unlock, store_unlock, wake_readers, wake_downgraded, wake_writer, cas_fast,
  cas_first, cas_second, load_shared, try_shared, park_shared, parked_shared, cas_unlock_shared,
  top, one_writer, one_reader, fits,
}
use neocache.Prelude.{ℕ, suc, ◌+◌, ◌*◌, ◌/◌, ◌%◌, ◌^◌, ◌≤◌, ◌<◌, ◌≡◌, true, not, ◌||◌, to_nat, eqb}

-- Who holds the lock.
unfoldable pub holds_shared : Pc → ℕ
holds_shared reading = 1
holds_shared wake_downgraded = 1
holds_shared _ = 0

unfoldable pub holds_exclusive : Pc → ℕ
holds_exclusive writing = 1
holds_exclusive load_unlock = 1
holds_exclusive (cas_unlock _) = 1
holds_exclusive store_unlock = 1
holds_exclusive _ = 0

-- The parked bits that an unlocking writer has seen, and that stay set until it has stored.
unfoldable pub saw_readers : Pc → ℕ
saw_readers (cas_unlock state) = state % 2
saw_readers store_unlock = 1
saw_readers _ = 0

unfoldable pub saw_writers : Pc → ℕ
saw_writers (cas_unlock state) = state / 2 % 2
saw_writers store_unlock = 1
saw_writers _ = 0

unfoldable pub saw_any : Pc → ℕ
saw_any load_unlock = 1
saw_any _ = 0

-- A failed assertion, or local variables from which one would follow.
unfoldable pub bad : Pc → ℕ
bad panicked = 1
bad (cas_unlock state) = to_nat (not (eqb state (one_writer + 1) || eqb state (one_writer + 2)))
bad (cas_fast state) = to_nat (not (fits state))
bad (cas_first state) = to_nat (not (fits state))
bad (cas_second state) = to_nat (not (fits state))
bad (try_shared state) = to_nat (eqb ((state + one_reader) / 4) top)
bad _ = 0

-- Who is on the slow path to a read lock, and who will see to it that a writer is woken when the
-- lock is free with the writers' bit set.
unfoldable pub seeks_shared : Pc → ℕ
seeks_shared load_shared = 1
seeks_shared (try_shared _) = 1
seeks_shared park_shared = 1
seeks_shared parked_shared = 1
seeks_shared _ = 0

unfoldable pub succeeds : Pc → ℕ
succeeds load_shared = 1
succeeds (try_shared _) = 1
succeeds park_shared = 1
succeeds parked_shared = 1
succeeds cas_unlock_shared = 1
succeeds _ = 0

unfoldable pub sleeps_shared : Pc → ℕ
sleeps_shared parked_shared = 1
sleeps_shared _ = 0

unfoldable pub wakes_shared : Pc → ℕ
wakes_shared wake_readers = 1
wakes_shared wake_downgraded = 1
wakes_shared _ = 0

unfoldable pub sleeps_exclusive : Pc → ℕ
sleeps_exclusive parked_exclusive = 1
sleeps_exclusive _ = 0

-- Who wakes a writer, or will set the writers' bit again.
unfoldable pub wakes_exclusive : Pc → ℕ
wakes_exclusive wake_writer = 1
wakes_exclusive (load_exclusive true) = 1
wakes_exclusive (try_exclusive true _) = 1
wakes_exclusive park_exclusive = 1
wakes_exclusive _ = 0

-- `sum` adds a weight up over all threads.
pub record IsSound (word : ℕ) (sum : (Pc → ℕ) → ℕ) : Type 0 where
  pub wide : word < 2 ^ 64
  pub held : word / 4 ≡ sum holds_shared + sum holds_exclusive * top
  pub sought : word % 2 ≤ sum seeks_shared
  pub guarded : word % 2 ≤ sum holds_exclusive
  pub readers_stay : sum saw_readers ≤ word % 2
  pub writers_stay : sum saw_writers ≤ word / 2 % 2
  pub some_stays : sum saw_any ≤ word % 4
  pub fine : sum bad ≡ 0
  pub followed : word / 2 % 2 ≤ sum holds_shared + sum holds_exclusive + sum succeeds
  pub readers_woken : 0 < sum sleeps_shared → 0 < word % 2 + sum wakes_shared
  pub writers_woken : 0 < sum sleeps_exclusive → 0 < word / 2 % 2 + sum wakes_exclusive

-- What holds of the sums over the threads besides the one that moves.
pub record IsRest (rest : (Pc → ℕ) → ℕ) : Type 0 where
  pub few : suc (rest holds_shared) < top
  pub saw_readers_le : rest saw_readers ≤ rest holds_exclusive
  pub saw_writers_le : rest saw_writers ≤ rest holds_exclusive
  pub saw_any_le : rest saw_any ≤ rest holds_exclusive
  pub seeks_le : rest seeks_shared ≤ rest succeeds

-- The sums with one thread at `p`.
abbrev pub with_one : ((Pc → ℕ) → ℕ) → Pc → (Pc → ℕ) → ℕ
with_one rest p f = f p + rest f

-- Unfolds all weights.
unfoldable pub weights : Unit {0}
unfolding holds_shared holds_exclusive saw_readers saw_writers saw_any bad seeks_shared succeeds
    sleeps_shared wakes_shared sleeps_exclusive wakes_exclusive
weights = tt
