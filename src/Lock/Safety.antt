-- ===== src/Lock/Safety.antt =====
-- What a lock promises, in every reachable system.
use native.Mathlib.Decide.{ℕ_discrete}
use neocache.Lock.{
  Pc, idle, reading, writing, panicked, load_exclusive, try_exclusive, parked_exclusive,
  wake_readers, load_shared, parked_shared, top,
}
use neocache.Lock.Invariant.{
  seeks_shared, holds_shared, holds_exclusive, succeeds, sleeps_shared, wakes_shared,
  sleeps_exclusive, wakes_exclusive, weights,
}
use neocache.Lock.Steps.{Reach-IsSafe}
use neocache.Lock.System.{get_elem?, System, Reach}
use neocache.Lock.Tally.{
  tally-none, tally, tally-split, tally_mono, tally-sum, tally-some, others-ge,
}
use neocache.Prelude.{
  refl, ap, ◌∙◌, ℕ, ◌+◌, ◌≤◌, ◌<◌, ◌≡◌, inl, inr, true, some, ltb, ltb→lt, Bool-cases, arith, false,
}

-- In a reachable system of fewer threads than `top`, two threads that hold the lock, one of them
-- for writing, are the same thread.
pub mutual_exclusion :
    {n : ℕ} {s : System}
    → n < top
    → Reach n s
    → (i j : ℕ) (p q : Pc) → get_elem? s.pcs i ≡ some p
    → get_elem? s.pcs j ≡ some q
    → 0 < holds_exclusive p
    → 0 < holds_exclusive q + holds_shared q
    → i ≡ j
mutual_exclusion {s} few r i j p q at-i at-j writes holds = elim (ℕ_discrete j i) [
  | yes same ↦ omega (arith, same)
  | no other ↦ absurd (
      omega (
        arith,
        (Reach-IsSafe few r).wide,
        (Reach-IsSafe few r).held,
        tally-split holds_exclusive s.pcs i p at-i,
        tally-split holds_shared s.pcs i p at-i,
        others-ge holds_exclusive s.pcs i j p q at-i at-j other,
        others-ge holds_shared s.pcs i j p q at-i at-j other,
      ))
]

-- Whether a thread holds the lock or is in one of its methods, and not parked.
unfoldable pub runs : Pc → ℕ
runs idle = 0
runs panicked = 0
runs parked_exclusive = 0
runs parked_shared = 0
runs _ = 1

-- The sum of two weights.
abbrev plus : (Pc → ℕ) → (Pc → ℕ) → Pc → ℕ
plus f g p = f p + g p

exclusive-runs : (p : Pc) → holds_exclusive p ≤ runs p
unfolding runs weights
exclusive-runs writing = omega arith
exclusive-runs p = omega arith

shared-runs : (p : Pc) → holds_shared p ≤ runs p
unfolding runs weights
shared-runs reading = omega arith
shared-runs p = omega arith

wakes_shared-runs : (p : Pc) → wakes_shared p ≤ runs p
unfolding runs weights
wakes_shared-runs wake_readers = omega arith
wakes_shared-runs p = omega arith

wakes_exclusive-runs : (p : Pc) → wakes_exclusive p ≤ runs p
unfolding runs weights
wakes_exclusive-runs (load_exclusive true) = omega arith
wakes_exclusive-runs (load_exclusive false) = omega arith
wakes_exclusive-runs (try_exclusive true state) = omega arith
wakes_exclusive-runs (try_exclusive false state) = omega arith
wakes_exclusive-runs p = omega arith

succeeds-runs : (p : Pc) → succeeds p ≤ runs p + sleeps_shared p
unfolding runs weights
succeeds-runs load_shared = omega arith
succeeds-runs p = omega arith

-- No deadlock: in a reachable system of fewer threads than `top`, if a thread is parked, for reading
-- or for writing, then some thread runs: it holds the lock or is in one of its methods, not parked.
pub no_deadlock :
    {n : ℕ} {s : System}
    → n < top
    → Reach n s
    → (i : ℕ) (p : Pc) → get_elem? s.pcs i ≡ some p
    → 0 < sleeps_shared p + sleeps_exclusive p
    → (j : ℕ) × (q : Pc) × (get_elem? s.pcs j ≡ some q) × (0 < runs q)
no_deadlock {s} few r i p at sleeps = elim (Bool-cases (ltb 0 (tally runs s.pcs))) [
  | inl running ↦ tally-some runs s.pcs (ltb→lt 0 _ running)
  | inr stuck ↦ absurd (
      ground (
        arith,
        stuck,
        Reach-IsSafe few r,
        tally-split sleeps_shared s.pcs i p at,
        tally-split sleeps_exclusive s.pcs i p at,
        tally_mono holds_exclusive runs s.pcs exclusive-runs,
        tally_mono holds_shared runs s.pcs shared-runs,
        tally_mono wakes_shared runs s.pcs wakes_shared-runs,
        tally_mono wakes_exclusive runs s.pcs wakes_exclusive-runs,
        tally_mono succeeds (plus runs sleeps_shared) s.pcs succeeds-runs,
        tally-sum runs sleeps_shared s.pcs,
      ))
]

-- Round trip to the word of `INIT`: in a reachable system of fewer threads than `top`, if every
-- thread is idle again, the state word is 0, with no reader counted and no parked bit left.
pub released :
    {n : ℕ} {s : System}
    → n < top
    → Reach n s
    → ((i : ℕ) (p : Pc) → get_elem? s.pcs i ≡ some p → p ≡ idle)
    → s.word ≡ 0
unfolding weights
released {s} few r all_idle =
    let none_of : (f : Pc → ℕ) → f idle ≡ 0 → tally f s.pcs ≡ 0 =
      λ f e. tally-none f s.pcs (λ i p at. ap f (all_idle i p at) ∙ e) in
    ground (
      arith,
      Reach-IsSafe few r,
      none_of holds_shared refl,
      none_of holds_exclusive refl,
      none_of seeks_shared refl,
      none_of succeeds refl,
    )
