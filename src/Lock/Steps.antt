-- ===== src/Lock/Steps.antt =====
-- Every reachable system of fewer than `top` threads is safe.
use neocache.Lock.{
  Pc, idle, reading, load_exclusive, parked_exclusive, wake_readers, wake_downgraded, wake_writer,
  load_shared, parked_shared, step, top,
}
use neocache.Lock.Invariant.{
  holds_shared, holds_exclusive, saw_readers, saw_writers, saw_any, bad, sleeps_shared,
  sleeps_exclusive, weights,
}
use neocache.Lock.Moves.{step-IsSound}
use neocache.Lock.System.{
  set, replicate, System, unpark, Step, turn, all_readers, all_downgraded, one_writer, no_writer,
  wake_reader, wake_exclusive, init, Reach, start, later,
}
use neocache.Lock.Tally.{others, tally-split, length-set, tally-replicate}
use neocache.Lock.Wakes.{
  IsSafe, others-IsRest, IsSafe-split, IsSafe-set, unpark_readers-IsSafe, unpark_downgraded-IsSafe,
  wake_reader-IsSound, wake_exclusive-IsSound, woken-IsSound, other-woken, no-sleepers,
}
use neocache.Prelude.{
  ℕ, zero, suc, ◌<◌, ◌≡◌, refl, ◌∙◌, inl, inr, true, List, [], ◌∷◌, map, length, arith,
}

length-map : (g : Pc → Pc) (ps : List Pc) → length (map g ps) ≡ length ps
length-map g [] = refl
length-map g (p ∷ ps) = omega (arith, length-map g ps)

length-replicate : (n : ℕ) (p : Pc) → length (replicate n p) ≡ n
length-replicate zero p = refl
length-replicate (suc n) p = omega (arith, length-replicate n p)

Step-length : {s t : System} → Step s t → length t.pcs ≡ length s.pcs
Step-length {s} (turn i p ch at) = length-set s.pcs i (step ch s.word p).1
Step-length {s} (all_readers i at) = length-map unpark (set s.pcs i idle) ∙ length-set s.pcs i idle
Step-length {s} (all_downgraded i at) =
    length-map unpark (set s.pcs i reading) ∙ length-set s.pcs i reading
Step-length {s} (one_writer i j at-j at-i) =
    length-set (set s.pcs j (load_exclusive true)) i idle ∙ length-set s.pcs j (load_exclusive true)
Step-length {s} (no_writer i at never) = length-set s.pcs i idle
Step-length {s} (wake_reader i at) = length-set s.pcs i load_shared
Step-length {s} (wake_exclusive i at) = length-set s.pcs i (load_exclusive true)

-- Each step keeps the invariant.
Step-IsSafe : {s t : System} → length s.pcs < top → Step s t → IsSafe s → IsSafe t
Step-IsSafe {s} few (turn i p ch at) h =
    IsSafe-set (step ch s.word p).0 s.pcs i p (step ch s.word p).1 at (
      step-IsSound (λ f. others f s.pcs i) (others-IsRest s.pcs i p at few) s.word ch p
        (IsSafe-split s.word s.pcs i p at h))
Step-IsSafe {s} few (all_readers i at) h =
    unpark_readers-IsSafe s.word s.pcs i at (IsSafe-split s.word s.pcs i wake_readers at h)
Step-IsSafe {s} few (all_downgraded i at) h =
    unpark_downgraded-IsSafe s.word s.pcs i at (IsSafe-split s.word s.pcs i wake_downgraded at h)
Step-IsSafe {s} few (one_writer i j at-j at-i) h =
    let qs = set s.pcs j (load_exclusive true) in
    let awake : IsSafe (record { word = s.word; pcs = qs }) =
      IsSafe-set s.word s.pcs j parked_exclusive (load_exclusive true) at-j (
        wake_exclusive-IsSound s.word (λ f. others f s.pcs j)
          (IsSafe-split s.word s.pcs j parked_exclusive at-j h)) in
    IsSafe-set s.word qs i wake_writer idle at-i (
      woken-IsSound s.word (λ f. others f qs i)
        (inl (other-woken s.pcs i j parked_exclusive at-j at-i))
        (IsSafe-split s.word qs i wake_writer at-i awake))
Step-IsSafe {s} few (no_writer i at never) h = IsSafe-set s.word s.pcs i wake_writer idle at (
    woken-IsSound s.word (λ f. others f s.pcs i)
      (inr (
        omega
          (arith, no-sleepers s.pcs never, tally-split sleeps_exclusive s.pcs i wake_writer at)))
      (IsSafe-split s.word s.pcs i wake_writer at h))
Step-IsSafe {s} few (wake_reader i at) h = IsSafe-set s.word s.pcs i parked_shared load_shared at (
    wake_reader-IsSound s.word (λ f. others f s.pcs i)
      (IsSafe-split s.word s.pcs i parked_shared at h))
Step-IsSafe {s} few (wake_exclusive i at) h =
    IsSafe-set s.word s.pcs i parked_exclusive (load_exclusive true) at (
      wake_exclusive-IsSound s.word (λ f. others f s.pcs i)
        (IsSafe-split s.word s.pcs i parked_exclusive at h))

init-IsSafe : (n : ℕ) → IsSafe (init n)
unfolding weights
init-IsSafe n =
    let none_at = tally-replicate n idle in
    ground (
      arith,
      none_at holds_shared refl,
      none_at holds_exclusive refl,
      none_at saw_readers refl,
      none_at saw_writers refl,
      none_at saw_any refl,
      none_at bad refl,
      none_at sleeps_shared refl,
      none_at sleeps_exclusive refl,
    )

Reach-length : {n : ℕ} {s : System} → Reach n s → length s.pcs ≡ n
Reach-length {n} start = length-replicate n idle
Reach-length (later r st) = Step-length st ∙ Reach-length r

-- In every reachable system of fewer threads than `top`, the state word counts the readers, or has
-- all reader bits set while there is a writer; no assertion has failed; and while a thread is
-- parked, its bit is set in the word or a thread is on its way to wake it.
pub Reach-IsSafe : {n : ℕ} {s : System} → n < top → Reach n s → IsSafe s
Reach-IsSafe {n} few start = init-IsSafe n
Reach-IsSafe few (later r st) =
    Step-IsSafe (omega (arith, Reach-length r, few)) st (Reach-IsSafe few r)
