-- ===== src/Lock/Moves.antt =====
-- A step of a thread keeps the invariant.
use neocache.Lock.{
  Pc, idle, reading, writing, panicked, retry_exclusive, load_exclusive, try_exclusive,
  park_exclusive, parked_exclusive, load_unlock, cas_unlock, store_unlock, wake_readers,
  wake_downgraded, wake_writer, cas_fast, load_try, cas_try, cas_first, retry_shared, cas_second,
  load_shared, try_shared, park_shared, parked_shared, cas_unlock_shared, Choice, exclusive_try,
  exclusive_fast, exclusive_slow, exclusive_park, exclusive_unlock, unlock_load, unlock_cas,
  shared_load, shared_cas, shared_try, shared_slow, shared_park, shared_unlock, shared_unlock_slow,
  downgrade, begin, step, Call, try_lock_exclusive, lock_exclusive, try_lock_shared, lock_shared,
}
use neocache.Lock.Invariant.{weights, IsSound, IsRest, with_one}
use neocache.Prelude.{ℕ, Bool, true, false, if◌then◌else◌, arith}

module _ (rest : (Pc → ℕ) → ℕ) (r : IsRest rest) (word : ℕ) where
  abbrev Keeps : Pc → ℕ × Pc → Type 0
  Keeps p q = IsSound word (with_one rest p) → IsSound q.0 (with_one rest q.1)

  exclusive_try-Keeps : Keeps idle (exclusive_try word)
  unfolding exclusive_try weights
  exclusive_try-Keeps i = ground arith

  exclusive_fast-Keeps :
      (ch : Choice)
      → Keeps idle (exclusive_fast retry_exclusive ch word)
        × Keeps retry_exclusive (exclusive_fast (load_exclusive false) ch word)
  unfolding exclusive_fast weights
  exclusive_fast-Keeps ch = ((λ i. ground arith), (λ i. ground arith))

  exclusive_slow-Keeps :
      (ch : Choice) (acquire_with : Bool) (state : ℕ)
      → Keeps (try_exclusive acquire_with state) (exclusive_slow ch word acquire_with state)
  unfolding exclusive_slow weights
  exclusive_slow-Keeps ch true state i = ground arith
  exclusive_slow-Keeps ch false state i = ground arith

  exclusive_park-Keeps : Keeps park_exclusive (exclusive_park word)
  unfolding exclusive_park weights
  exclusive_park-Keeps i = ground arith

  writing-Keeps : Keeps writing (exclusive_unlock word) × Keeps writing (downgrade word)
  unfolding exclusive_unlock downgrade weights
  writing-Keeps = ((λ i. ground (arith, r)), (λ i. ground (arith, r)))

  unlock_load-Keeps : Keeps load_unlock (unlock_load word)
  unfolding unlock_load weights
  unlock_load-Keeps i = ground arith

  unlock_cas-Keeps : (state : ℕ) → Keeps (cas_unlock state) (unlock_cas word state)
  unfolding unlock_cas weights
  unlock_cas-Keeps state i = ground arith

  store_unlock-Keeps : Keeps store_unlock (2, wake_readers)
  unfolding weights
  store_unlock-Keeps i = ground arith

  shared_load-Keeps :
      Keeps idle (shared_load load_try cas_fast word)
      × Keeps idle (shared_load retry_shared cas_first word)
      × Keeps retry_shared (shared_load load_shared cas_second word)
  unfolding shared_load weights
  shared_load-Keeps = ((λ i. ground arith), (λ i. ground arith), (λ i. ground arith))

  shared_cas-Keeps :
      (ch : Choice) (state : ℕ)
      → Keeps (cas_fast state) (shared_cas load_try ch word state)
        × Keeps (cas_first state) (shared_cas retry_shared ch word state)
        × Keeps (cas_second state) (shared_cas load_shared ch word state)
  unfolding shared_cas weights
  shared_cas-Keeps ch state = ((λ i. ground arith), (λ i. ground arith), (λ i. ground arith))

  shared_try-Keeps : (ch : Choice) (state : ℕ) → Keeps (cas_try state) (shared_try ch word state)
  unfolding shared_try weights
  shared_try-Keeps ch state i = ground arith

  shared_slow-Keeps :
      (ch : Choice) (state : ℕ) → Keeps (try_shared state) (shared_slow ch word state)
  unfolding shared_slow weights
  shared_slow-Keeps ch state i = ground arith

  shared_park-Keeps : Keeps park_shared (shared_park word)
  unfolding shared_park weights
  shared_park-Keeps i = ground arith

  shared_unlock-Keeps : Keeps reading (shared_unlock word)
  unfolding shared_unlock weights
  shared_unlock-Keeps i = ground arith

  shared_unlock_slow-Keeps : Keeps cas_unlock_shared (shared_unlock_slow word)
  unfolding shared_unlock_slow weights
  shared_unlock_slow-Keeps i = ground arith

  -- The loads that go on with the word, and the waits.
  load-Keeps :
      (acquire_with : Bool)
      → Keeps (load_exclusive acquire_with) (word, try_exclusive acquire_with word)
        × Keeps load_try (word, cas_try word)
        × Keeps load_shared (word, try_shared word)
  unfolding weights
  load-Keeps true = ((λ i. ground arith), (λ i. ground arith), (λ i. ground arith))
  load-Keeps false = ((λ i. ground arith), (λ i. ground arith), (λ i. ground arith))

  begin-Keeps : (call : Call) (ch : Choice) → Keeps idle (begin call ch word)
  unfolding begin
  begin-Keeps try_lock_exclusive ch = exclusive_try-Keeps
  begin-Keeps lock_exclusive ch = (exclusive_fast-Keeps ch).0
  begin-Keeps try_lock_shared ch = shared_load-Keeps.0
  begin-Keeps lock_shared ch = shared_load-Keeps.1

  leave-Keeps : (b : Bool) → Keeps writing (if b then downgrade word else exclusive_unlock word)
  leave-Keeps true = writing-Keeps.1
  leave-Keeps false = writing-Keeps.0

  pub step-IsSound :
      (ch : Choice) (p : Pc)
      → IsSound word (with_one rest p)
      → IsSound (step ch word p).0 (with_one rest (step ch word p).1)
  unfolding step
  step-IsSound ch idle = begin-Keeps ch.call ch
  step-IsSound ch reading = shared_unlock-Keeps
  step-IsSound ch writing = leave-Keeps ch.downgrades
  step-IsSound ch retry_exclusive = (exclusive_fast-Keeps ch).1
  step-IsSound ch (load_exclusive acquire_with) = (load-Keeps acquire_with).0
  step-IsSound ch (try_exclusive acquire_with state) = exclusive_slow-Keeps ch acquire_with state
  step-IsSound ch park_exclusive = exclusive_park-Keeps
  step-IsSound ch load_unlock = unlock_load-Keeps
  step-IsSound ch (cas_unlock state) = unlock_cas-Keeps state
  step-IsSound ch store_unlock = store_unlock-Keeps
  step-IsSound ch (cas_fast state) = (shared_cas-Keeps ch state).0
  step-IsSound ch load_try = (load-Keeps true).1
  step-IsSound ch (cas_try state) = shared_try-Keeps ch state
  step-IsSound ch (cas_first state) = (shared_cas-Keeps ch state).1
  step-IsSound ch retry_shared = shared_load-Keeps.2
  step-IsSound ch (cas_second state) = (shared_cas-Keeps ch state).2
  step-IsSound ch load_shared = (load-Keeps true).2
  step-IsSound ch (try_shared state) = shared_slow-Keeps ch state
  step-IsSound ch park_shared = shared_park-Keeps
  step-IsSound ch cas_unlock_shared = shared_unlock_slow-Keeps
  step-IsSound ch panicked = λ i. i
  step-IsSound ch parked_exclusive = λ i. i
  step-IsSound ch parked_shared = λ i. i
  step-IsSound ch wake_readers = λ i. i
  step-IsSound ch wake_downgraded = λ i. i
  step-IsSound ch wake_writer = λ i. i
