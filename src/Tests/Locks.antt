-- ===== src/Tests/Locks.antt =====
-- The theorems on the lock in a run of two threads: one locks for writing, and the other parks for
-- reading behind it.
use neocache.Lock.{
  Choice, Pc, retry_shared, load_shared, try_shared, park_shared, writing, parked_shared, idle,
  lock_exclusive, lock_shared, one_writer, top, step, Call,
}
use neocache.Lock.Invariant.{
  weights, holds_exclusive, holds_shared, sleeps_shared, sleeps_exclusive,
}
use neocache.Lock.Safety.{mutual_exclusion, no_deadlock, runs, released}
use neocache.Lock.Steps.{Reach-IsSafe}
use neocache.Lock.System.{System, Reach, start, later, turn, get_elem?}
use neocache.Lock.Wakes.{IsSafe}
use neocache.Prelude.{ℕ, zero, suc, ◌+◌, ◌<◌, ◌≡◌, refl, some, false, arith, ◌∷◌, []}

abbrev calls : Call → Choice
calls c = record { call = c; downgrades = false; spurious = false; spun = false }

abbrev parked : System
parked = record { word = one_writer + 1; pcs = writing ∷ parked_shared ∷ [] }

parked-Reach : Reach 2 parked
unfolding step
parked-Reach =
    let c = calls lock_shared in
    later
      (later
        (later
          (later
            (later (later start (turn 0 idle (calls lock_exclusive) refl)) (turn 1 idle c refl))
            (turn 1 retry_shared c refl))
          (turn 1 load_shared c refl))
        (turn 1 (try_shared one_writer) c refl))
      (turn 1 park_shared c refl)

writing-holds : 0 < holds_exclusive writing
unfolding weights
writing-holds = omega arith

writing-holds-any : 0 < holds_exclusive writing + holds_shared writing
unfolding weights
writing-holds-any = omega arith

parked-sleeps : 0 < sleeps_shared parked_shared + sleeps_exclusive parked_shared
unfolding weights
parked-sleeps = omega arith

few : 2 < top
few = omega arith

abbrev first : ℕ
first = 0

mutual_exclusion_example : first ≡ first
mutual_exclusion_example =
    mutual_exclusion few parked-Reach first first writing writing refl refl writing-holds
      writing-holds-any

no_deadlock_example : (j : ℕ) × (q : Pc) × (get_elem? parked.pcs j ≡ some q) × (0 < runs q)
no_deadlock_example = no_deadlock few parked-Reach 1 parked_shared refl parked-sleeps

Reach-IsSafe_example : IsSafe parked
Reach-IsSafe_example = Reach-IsSafe few parked-Reach

-- A lock and an unlock of one thread.
abbrev unlocked : System
unlocked = record { word = 0; pcs = idle ∷ idle ∷ [] }

unlocked-Reach : Reach 2 unlocked
unfolding step
unlocked-Reach =
    let c = calls lock_exclusive in later (later start (turn 0 idle c refl)) (turn 0 writing c refl)

unlocked-idle : (i : ℕ) (p : Pc) → get_elem? unlocked.pcs i ≡ some p → p ≡ idle
unlocked-idle zero p at = ground (arith, at)
unlocked-idle (suc zero) p at = ground (arith, at)
unlocked-idle (suc (suc i)) p at = ground (arith, at)

released_example : unlocked.word ≡ 0
released_example = released few unlocked-Reach unlocked-idle
