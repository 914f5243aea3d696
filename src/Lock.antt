-- ===== src/Lock.antt =====
-- `RawRwLock` of src/lock.rs, one access to the state word at a time. A program counter says where
-- a thread stands in a method and what its local variables hold there; `step` makes its next access.
pub mod System
pub mod Tally
pub mod Invariant
pub mod Moves
pub mod Wakes
pub mod Steps
pub mod Safety
use neocache.Prelude.{
  ℕ, ◌+◌, ◌-◌, ◌*◌, ◌/◌, ◌%◌, ◌^◌, Bool, true, false, not, ◌&&◌, ltb, eqb, if◌then◌else◌,
}

-- `ONE_WRITER` is `top * 4`: all bits but the lowest two. `state & ONE_WRITER` is read as
-- `state / 4`, `state & READERS_PARKED` as `state % 2`, `state & WRITERS_PARKED` as `state / 2 % 2`.
abbrev pub top : ℕ
top = 2 ^ 62 - 1

abbrev pub one_reader : ℕ
one_reader = 4

abbrev pub one_writer : ℕ
one_writer = top * 4

abbrev pub readers_parked : ℕ
readers_parked = 1

abbrev pub writers_parked : ℕ
writers_parked = 2

-- `state | WRITERS_PARKED` and `state | READERS_PARKED`
abbrev pub set_writers : ℕ → ℕ
set_writers state = state / 4 * 4 + writers_parked + state % 2

abbrev pub set_readers : ℕ → ℕ
set_readers state = state / 2 * 2 + readers_parked

-- The methods that a thread without a guard may call.
pub data Call : Type 0 where
  try_lock_exclusive lock_exclusive try_lock_shared lock_shared : Call

-- What a step leaves open: the method that a thread calls, whether a writer downgrades, whether a
-- weak compare-exchange fails for no reason, and what `spin.spin()` answers.
pub record Choice : Type 0 where
  pub call : Call
  pub downgrades : Bool
  pub spurious : Bool
  pub spun : Bool

pub data Pc : Type 0 where
  idle : Pc  -- without a guard
  reading : Pc  -- with a read guard
  writing : Pc  -- with a write guard
  panicked : Pc  -- at a failed assertion
  retry_exclusive : Pc  -- the second compare-exchange of `lock_exclusive`
  load_exclusive : (acquire_with : Bool) → Pc  -- `lock_exclusive_slow`, at its load
  try_exclusive : (acquire_with : Bool) (state : ℕ) → Pc  -- at the head of its inner loop
  park_exclusive : Pc
  parked_exclusive : Pc
  load_unlock : Pc  -- `unlock_exclusive_slow`, at its load
  cas_unlock : (state : ℕ) → Pc
  store_unlock : Pc
  wake_readers : Pc  -- before `unpark_all`
  wake_downgraded : Pc  -- the same in `downgrade`
  wake_writer : Pc  -- before `unpark_one`
  cas_fast : (state : ℕ) → Pc  -- `try_lock_shared_fast`, called by `try_lock_shared`
  load_try : Pc  -- `try_lock_shared_slow`, at its load
  cas_try : (state : ℕ) → Pc  -- at the head of its loop
  cas_first : (state : ℕ) → Pc  -- `try_lock_shared_fast`, called by `lock_shared`
  retry_shared : Pc  -- its second call, at its load
  cas_second : (state : ℕ) → Pc
  load_shared : Pc  -- `lock_shared_slow`, at a load
  try_shared : (state : ℕ) → Pc  -- at the head of its inner loops
  park_shared : Pc
  parked_shared : Pc
  cas_unlock_shared : Pc  -- `unlock_shared_slow`

-- Whether `compare_exchange_weak(state, _)` succeeds on the word.
abbrev pub agrees : Choice → ℕ → ℕ → Bool
agrees ch word state = not ch.spurious && eqb word state

-- `checked_add(ONE_READER)` gives a number, and that is not `ONE_WRITER`.
abbrev pub fits : ℕ → Bool
fits state = ltb (state + one_reader) (2 ^ 64) && not (eqb ((state + one_reader) / 4) top)

-- `state & ONE_WRITER == ONE_WRITER` or `!= 0`, with a parked bit set.
abbrev pub both : Bool → ℕ → Bool
both held bit = held && eqb bit 1

unfoldable pub exclusive_try : ℕ → ℕ × Pc
exclusive_try word = if eqb word 0 then (one_writer, writing) else (word, idle)

-- `lock_exclusive` at its two compare-exchanges; `next` is what follows a failure.
unfoldable pub exclusive_fast : Pc → Choice → ℕ → ℕ × Pc
exclusive_fast next ch word = if agrees ch word 0 then (one_writer, writing) else (word, next)

-- The word that a writer acquires with: `state | ONE_WRITER | acquire_with`.
abbrev pub acquired : Bool → ℕ → ℕ
acquired acquire_with state =
    if acquire_with then set_writers (one_writer + state % 4) else one_writer + state % 4

-- `lock_exclusive_slow` at its inner loops, and at the validation of `park`.
unfoldable pub exclusive_slow : Choice → ℕ → Bool → ℕ → ℕ × Pc
exclusive_slow ch word acquire_with state =
    if eqb (state / 4) 0
    then (if agrees ch word state
        then (acquired acquire_with state, writing)
        else (word, try_exclusive acquire_with word))
    else if eqb (state / 2 % 2) 0
    then (if ch.spun
        then (word, load_exclusive acquire_with)
        else if agrees ch word state
        then (set_writers state, park_exclusive)
        else (word, try_exclusive acquire_with word))
    else (word, park_exclusive)

unfoldable pub exclusive_park : ℕ → ℕ × Pc
exclusive_park word =
    if both (not (eqb (word / 4) 0)) (word / 2 % 2)
    then (word, parked_exclusive)
    else (word, load_exclusive true)

unfoldable pub exclusive_unlock : ℕ → ℕ × Pc
exclusive_unlock word = if eqb word one_writer then (0, idle) else (word, load_unlock)

-- `unlock_exclusive_slow` at its load, with the assertions behind it.
unfoldable pub unlock_load : ℕ → ℕ × Pc
unlock_load word =
    if not (eqb (word / 4) top)
    then (word, panicked)
    else if eqb (word % 4) 0
    then (word, panicked)
    else if eqb (word % 4) 3
    then (word, store_unlock)
    else (word, cas_unlock word)

-- Its compare-exchange: with one of the bits set, the threads of that queue are woken.
unfoldable pub unlock_cas : ℕ → ℕ → ℕ × Pc
unlock_cas word state =
    if eqb word state
    then (if eqb (state % 4) readers_parked
        then (0, wake_readers)
        else if eqb (state % 4) writers_parked
        then (0, wake_writer)
        else (0, panicked))
    else if eqb word (one_writer + 3)
    then (word, store_unlock)
    else (word, panicked)

-- `try_lock_shared_fast`: its load, and its compare-exchange; `next` is what follows a failure.
unfoldable pub shared_load : Pc → (ℕ → Pc) → ℕ → ℕ × Pc
shared_load next cas word = if fits word then (word, cas word) else (word, next)

unfoldable pub shared_cas : Pc → Choice → ℕ → ℕ → ℕ × Pc
shared_cas next ch word state =
    if agrees ch word state then (state + one_reader, reading) else (word, next)

-- `try_lock_shared_slow` at the head of its loop.
unfoldable pub shared_try : Choice → ℕ → ℕ → ℕ × Pc
shared_try ch word state =
    if fits state
    then (if agrees ch word state then (state + one_reader, reading) else (word, cas_try word))
    else (word, idle)

-- `lock_shared_slow` at the heads of its inner loops, and at the validation of `park`.
unfoldable pub shared_slow : Choice → ℕ → ℕ → ℕ × Pc
shared_slow ch word state =
    if ltb (state + one_reader) (2 ^ 64)
    then (if eqb ((state + one_reader) / 4) top
        then (word, panicked)
        else if agrees ch word state
        then (state + one_reader, reading)
        else (word, load_shared))
    else if eqb (state % 2) 0
    then (if ch.spun
        then (word, load_shared)
        else if agrees ch word state
        then (set_readers state, park_shared)
        else (word, try_shared word))
    else (word, park_shared)

unfoldable pub shared_park : ℕ → ℕ × Pc
shared_park word =
    if both (eqb (word / 4) top) (word % 2) then (word, parked_shared) else (word, load_shared)

-- `fetch_sub(ONE_READER)` and the test behind it.
unfoldable pub shared_unlock : ℕ → ℕ × Pc
shared_unlock word = (
  (word + (2 ^ 64 - one_reader)) % 2 ^ 64,
  if eqb word (one_reader + writers_parked) then cas_unlock_shared else idle,
)

unfoldable pub shared_unlock_slow : ℕ → ℕ × Pc
shared_unlock_slow word = if eqb word writers_parked then (0, wake_writer) else (word, idle)

-- `fetch_and(ONE_READER | WRITERS_PARKED)`
unfoldable pub downgrade : ℕ → ℕ × Pc
downgrade word =
    (word / 4 % 2 * 4 + word / 2 % 2 * 2, if eqb (word % 2) 0 then reading else wake_downgraded)

unfoldable pub begin : Call → Choice → ℕ → ℕ × Pc
unfolding exclusive_try exclusive_fast shared_load
begin try_lock_exclusive ch word = exclusive_try word
begin lock_exclusive ch word = exclusive_fast retry_exclusive ch word
begin try_lock_shared ch word = shared_load load_try cas_fast word
begin lock_shared ch word = shared_load retry_shared cas_first word

-- The next access of a thread. A parked thread waits, and a wake goes by the parking lot.
unfoldable pub step : Choice → ℕ → Pc → ℕ × Pc
unfolding begin exclusive_fast exclusive_slow exclusive_park exclusive_unlock unlock_load unlock_cas
    shared_load shared_cas shared_try shared_slow shared_park shared_unlock shared_unlock_slow
    downgrade
step ch word idle = begin ch.call ch word
step ch word reading = shared_unlock word
step ch word writing = if ch.downgrades then downgrade word else exclusive_unlock word
step ch word retry_exclusive = exclusive_fast (load_exclusive false) ch word
step ch word (load_exclusive acquire_with) = (word, try_exclusive acquire_with word)
step ch word (try_exclusive acquire_with state) = exclusive_slow ch word acquire_with state
step ch word park_exclusive = exclusive_park word
step ch word load_unlock = unlock_load word
step ch word (cas_unlock state) = unlock_cas word state
step ch word store_unlock = (writers_parked, wake_readers)
step ch word (cas_fast state) = shared_cas load_try ch word state
step ch word load_try = (word, cas_try word)
step ch word (cas_try state) = shared_try ch word state
step ch word (cas_first state) = shared_cas retry_shared ch word state
step ch word retry_shared = shared_load load_shared cas_second word
step ch word (cas_second state) = shared_cas load_shared ch word state
step ch word load_shared = (word, try_shared word)
step ch word (try_shared state) = shared_slow ch word state
step ch word park_shared = shared_park word
step ch word cas_unlock_shared = shared_unlock_slow word
step ch word panicked = (word, panicked)
step ch word parked_exclusive = (word, parked_exclusive)
step ch word parked_shared = (word, parked_shared)
step ch word wake_readers = (word, wake_readers)
step ch word wake_downgraded = (word, wake_downgraded)
step ch word wake_writer = (word, wake_writer)
