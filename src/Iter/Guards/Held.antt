-- ===== src/Iter/Guards/Held.antt =====
-- The locks of an iterator over the actions of its client.
use neocache.Iter.Guards.{
  Event, Walk, Action, take, drop_item, drop_iterator, alive, strong_count, dropped, drop_guard,
  drop_current, next_loop, perform, run, started,
}
use neocache.Iter.Mutable.{advance}
use neocache.Prelude.{
  ℕ, zero, suc, ◌+◌, ◌<◌, ◌≡◌, refl, eqb, inl, inr, Bool-cases, Option, none, some, List, [], ◌∷◌,
  arith, Returns,
}
use neocache.Table.{weigh}
use neocache.Iter.Guards.Drop.{IsHeld}
use neocache.Iter.Guards.Moves.{
  at, opened, replaced-IsHeld, closed-IsHeld, took-IsHeld, removed-IsHeld,
}

module _ {B : Type 0} (count : ℕ) where
  shard_i-drop_guard :
      (o : Option (ℕ × List B)) (w : Walk B)
      → (drop_guard o w).iterator.shard_i ≡ w.iterator.shard_i
  unfolding drop_guard dropped
  shard_i-drop_guard none w = refl
  shard_i-drop_guard (some (j, bs)) w = elim (Bool-cases (eqb (strong_count j w) 0)) [
    | inl last ↦ rw last refl
    | inr more ↦ rw more refl
  ]

  module _ (buckets : ℕ → List B) where
    -- What is claimed of the loop.
    abbrev Loops : ℕ → Walk B → Type 0
    Loops fuel w = Returns (next_loop fuel count buckets w) (λ r. IsHeld count r.0)

    open_step :
        (fuel i : ℕ) (o : Option (ℕ × List B)) (items : List ℕ) (trace : List Event)
        → advance o ≡ none
        → IsHeld count (at count i items trace o)
        → ((v : Walk B) → IsHeld count v → v.iterator.shard_i ≡ i + 1 → Loops fuel v)
        → Loops (suc fuel) (at count i items trace o)
    unfolding next_loop
    open_step fuel i o items trace done h later = elim (Bool-cases (eqb i count)) [
      | inl last ↦ ((at count i items trace o, none), ground (arith, done, last), h)
      | inr more ↦
          let v = drop_guard o (opened count i items trace (buckets i)) in
          let (r, run, held) =
            later v
              (replaced-IsHeld count i items trace o (buckets i) (ground (arith, more, h.bound)) h)
              (shard_i-drop_guard o (opened count i items trace (buckets i))) in
          (r, ground (arith, done, more, run), held)
    ]

    loop_step :
        (fuel i : ℕ) (o : Option (ℕ × List B)) (items : List ℕ) (trace : List Event)
        → IsHeld count (at count i items trace o)
        → ((v : Walk B) → IsHeld count v → v.iterator.shard_i ≡ i + 1 → Loops fuel v)
        → Loops (suc fuel) (at count i items trace o)
    unfolding next_loop
    loop_step fuel i none items trace h later = open_step fuel i none items trace refl h later
    loop_step fuel i (some (j, [])) items trace h later =
        open_step fuel i (some (j, [])) items trace refl h later
    loop_step fuel i (some (j, b ∷ bs)) items trace h later =
        (_, refl, took-IsHeld count i items trace j b bs h)

    next_loop_lem :
        (fuel : ℕ) (w : Walk B) → IsHeld count w → count < fuel + w.iterator.shard_i → Loops fuel w
    next_loop_lem zero w h enough = absurd (omega (arith, h.bound, enough))
    next_loop_lem (suc fuel) w h enough =
        loop_step fuel w.iterator.shard_i w.iterator.current w.items w.trace h
          (λ v held at_next. next_loop_lem fuel v held (omega (arith, enough, at_next)))

    perform-IsHeld :
        (w : Walk B) (a : Action)
        → IsHeld count w
        → Returns (perform count buckets w a) (IsHeld count)
    unfolding perform
    perform-IsHeld w take h =
        let (r, run, held) = next_loop_lem (suc count) w h (omega arith) in
        (r.0, ground (arith, run), held)
    perform-IsHeld w (drop_item j) h = elim (Bool-cases (eqb (alive j w.items) 0)) [
      | inl nothing ↦ (w, rw nothing refl, h)
      | inr some_alive ↦ (
        _,
        rw some_alive refl,
        removed-IsHeld count w.iterator.shard_i w.items w.trace w.iterator.current j
            (ground (arith, some_alive)) h,
      )
    ]
    perform-IsHeld w drop_iterator h = (
      drop_current w,
      refl,
      closed-IsHeld count w.iterator.shard_i w.items w.trace w.iterator.current h,
    )

    run_lem :
        (w : Walk B) (actions : List Action)
        → IsHeld count w
        → Returns (run count buckets w actions) (IsHeld count)
    unfolding run
    run_lem w [] h = (w, refl, h)
    run_lem w (a ∷ actions) h =
        let (v, first, held) = perform-IsHeld w a h in
        let (u, rest, held') = run_lem v actions held in (u, ground (arith, first, rest), held')

    started-IsHeld : IsHeld count (started {B = B})
    unfolding strong_count weigh
    started-IsHeld = record {
      bound = omega arith;
      once = λ i. omega arith;
      balance = λ i. refl;
      fresh = λ i low. refl;
    }

    -- Whatever items of a new iterator a client takes and drops, in whatever order, and whether it
    -- drops the iterator: the calls return, each shard was locked once at most, and it is locked
    -- now, more often locked than unlocked, exactly if the iterator is at that shard or an item of
    -- it is alive; otherwise it was unlocked as often as it was locked.
    pub run-IsHeld :
        (actions : List Action) → Returns (run count buckets started actions) (IsHeld count)
    run-IsHeld actions = run_lem started actions started-IsHeld
