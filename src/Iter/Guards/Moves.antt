-- ===== src/Iter/Guards/Moves.antt =====
-- The moves of an iterator and of its client, and its locks.
use neocache.Iter.Guards.{
  Event, lock, Walk, is_current, alive, without, strong_count, dropped, drop_guard, drop_current,
}
use neocache.Prelude.{
  ℕ, false, ◌+◌, ◌≤◌, ◌<◌, ◌≡◌, ◌≢◌, refl, eqb, inl, inr, Bool-cases, Option, none, some, List, ◌∷◌,
  arith,
}
use neocache.Table.{weigh}
use native.Mathlib.Decide.{ℕ_discrete}
use neocache.Iter.Guards.Drop.{IsHeld, IsBalanced, locks, unlocks, alive-without, dropped-IsHeld}

module _ {B : Type 0} (count : ℕ) where
  module _ (i : ℕ) (items : List ℕ) (trace : List Event) where
    -- The walk at the shard `i`.
    abbrev pub at : Option (ℕ × List B) → Walk B
    at o = record { iterator = record { shard_i = i; current = o }; items = items; trace = trace }

    -- The walk that has opened the shard `i`.
    abbrev pub opened : List B → Walk B
    opened bs = record {
      iterator = record { shard_i = i + 1; current = some (i, bs) };
      items = items;
      trace = lock i ∷ trace;
    }

    opened-once :
        (o : Option (ℕ × List B)) → IsHeld count (at o) → (k : ℕ) → locks k (lock i ∷ trace) ≤ 1
    unfolding weigh
    opened-once o h k = elim (ℕ_discrete k i) [
      | yes same ↦
          let none_yet : locks k trace ≡ 0 = h.fresh k (omega (arith, same)) in
          ground (arith, none_yet)
      | no other ↦ ground (arith, other, h.once k)
    ]

    opened-fresh :
        (o : Option (ℕ × List B))
        → IsHeld count (at o)
        → (k : ℕ) → i + 1 ≤ k
        → locks k (lock i ∷ trace) ≡ 0
    unfolding weigh
    opened-fresh o h k low = ground (arith, low, h.fresh k (omega (arith, low)))

    opened-balance :
        (o : Option (ℕ × List B)) (bs : List B)
        → IsHeld count (at o)
        → (k : ℕ) → is_current k o ≡ false
        → IsBalanced count k (opened bs)
    unfolding strong_count weigh
    opened-balance o bs h k away = elim (ℕ_discrete k i) [
      | yes same ↦
          let none_yet : locks k trace ≡ 0 = h.fresh k (omega (arith, same)) in
          ground (arith, none_yet, h.balance k, away, same)
      | no other ↦ ground (arith, other, h.balance k, away)
    ]

    pub replaced-IsHeld :
        (o : Option (ℕ × List B)) (bs : List B)
        → i < count
        → IsHeld count (at o)
        → IsHeld count (drop_guard o (opened bs))
    unfolding drop_guard strong_count weigh
    replaced-IsHeld none bs low h = record {
      bound = omega (arith, low);
      once = opened-once none h;
      balance = λ k. opened-balance none bs h k refl;
      fresh = opened-fresh none h;
    }
    replaced-IsHeld (some (j, rest)) bs low h =
        let locked : locks j trace ≡ unlocks j trace + 1 = ground (arith, h.balance j) in
        let before : j ≢ i = λ e. ground (arith, locked, h.fresh j (omega (arith, e))) in
        dropped-IsHeld count j (opened bs) (record {
          bound = omega (arith, low);
          once = opened-once (some (j, rest)) h;
          fresh = opened-fresh (some (j, rest)) h;
          others = λ k other. opened-balance (some (j, rest)) bs h k (ground (arith, other));
          here = ground (arith, locked, before);
        })

    pub closed-IsHeld :
        (o : Option (ℕ × List B)) → IsHeld count (at o) → IsHeld count (drop_current (at o))
    unfolding drop_current drop_guard strong_count
    closed-IsHeld none h = h
    closed-IsHeld (some (j, rest)) h = dropped-IsHeld count j (at none) (record {
      bound = h.bound;
      once = h.once;
      fresh = h.fresh;
      others = λ k other. ground (arith, other, h.balance k);
      here = ground (arith, h.balance j);
    })

    pub took-IsHeld :
        (j : ℕ) (b : B) (bs : List B)
        → IsHeld count (at (some (j, b ∷ bs)))
        → IsHeld count (record (at (some (j, bs))) { items = j ∷ items })
    unfolding strong_count weigh
    took-IsHeld j b bs h = record {
      bound = h.bound;
      once = h.once;
      fresh = h.fresh;
      balance = λ k. elim (Bool-cases (eqb k j)) [
        | inl same ↦ ground (arith, same, h.balance k)
        | inr other ↦ ground (arith, other, h.balance k)
      ];
    }

    pub removed-IsHeld :
        (o : Option (ℕ × List B)) (j : ℕ)
        → 0 < alive j items
        → IsHeld count (at o)
        → IsHeld count (dropped j (record (at o) { items = without j items }))
    unfolding strong_count
    removed-IsHeld o j some_alive h =
        dropped-IsHeld count j (record (at o) { items = without j items })
          (record {
            bound = h.bound;
            once = h.once;
            fresh = h.fresh;
            others =
                λ k other. ground (arith, other, h.balance k, alive-without j k items some_alive);
            here = ground (arith, h.balance j, some_alive);
          })
