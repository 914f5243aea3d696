-- ===== src/Iter/Guards/Drop.antt =====
-- The locks of an iterator and the references to its guards, and the drop of a reference.
use neocache.Iter.Guards.{Event, lock, unlock, Walk, alive, without, strong_count, dropped}
use neocache.Prelude.{
  ℕ, ◌+◌, ◌≤◌, ◌<◌, ◌≡◌, ◌≢◌, refl, ◌∙◌, ap, to_nat, eqb, ltb, inl, inr, Bool-cases, List, [], ◌∷◌,
  arith,
}
use neocache.Table.{weigh}
use native.Mathlib.Decide.{ℕ_discrete}

abbrev pub is_lock : ℕ → Event → ℕ
is_lock i (lock j) = to_nat (eqb i j)
is_lock i (unlock j) = 0

abbrev pub is_unlock : ℕ → Event → ℕ
is_unlock i (lock j) = 0
is_unlock i (unlock j) = to_nat (eqb i j)

-- How often the shard was locked and unlocked.
abbrev pub locks : ℕ → List Event → ℕ
locks i = weigh (is_lock i)

abbrev pub unlocks : ℕ → List Event → ℕ
unlocks i = weigh (is_unlock i)

pub alive-without :
    (i j : ℕ) (js : List ℕ)
    → 0 < alive i js
    → alive j js ≡ alive j (without i js) + to_nat (eqb j i)
unfolding weigh
alive-without i j [] some_alive = absurd (omega (arith, some_alive))
alive-without i j (k ∷ js) some_alive = elim (Bool-cases (eqb i k)) [
  | inl same ↦ ground (arith, same)
  | inr other ↦ ground (arith, other, alive-without i j js (ground (arith, other, some_alive)))
]

module _ {B : Type 0} (count : ℕ) where
  -- The shard is locked if and only if a reference to its guard is alive.
  abbrev pub IsBalanced : ℕ → Walk B → Type 0
  IsBalanced i w = locks i w.trace ≡ unlocks i w.trace + to_nat (ltb 0 (strong_count i w))

  pub record IsHeld (w : Walk B) : Type 0 where
    pub bound : w.iterator.shard_i ≤ count
    pub once : (i : ℕ) → locks i w.trace ≤ 1
    pub balance : (i : ℕ) → IsBalanced i w
    pub fresh : (i : ℕ) → w.iterator.shard_i ≤ i → locks i w.trace ≡ 0

  -- What holds when a reference to the guard of `j` has gone.
  pub record IsGone (j : ℕ) (w : Walk B) : Type 0 where
    pub bound : w.iterator.shard_i ≤ count
    pub once : (i : ℕ) → locks i w.trace ≤ 1
    pub fresh : (i : ℕ) → w.iterator.shard_i ≤ i → locks i w.trace ≡ 0
    pub others : (i : ℕ) → i ≢ j → IsBalanced i w
    pub here : locks j w.trace ≡ unlocks j w.trace + 1

  module _ (j : ℕ) (w : Walk B) (g : IsGone j w) where
    abbrev unlocked : Walk B
    unlocked = record w { trace = unlock j ∷ w.trace }

    same_count : (i : ℕ) → strong_count i unlocked ≡ strong_count i w
    unfolding strong_count
    same_count i = refl

    unlocked-balance : strong_count j w ≡ 0 → (i : ℕ) → IsBalanced i unlocked
    unfolding weigh
    unlocked-balance last i = elim (ℕ_discrete i j) [
      | yes same ↦
          let now : strong_count i unlocked ≡ 0 =
            same_count i ∙ ap (λ x. strong_count x w) same ∙ last in
          let here : locks i w.trace ≡ unlocks i w.trace + 1 = rw same g.here in
          ground (arith, now, here, same)
      | no other ↦ ground (arith, other, g.others i other, same_count i)
    ]

    unlocked-IsHeld : strong_count j w ≡ 0 → IsHeld unlocked
    unfolding weigh
    unlocked-IsHeld last = record {
      bound = g.bound;
      once = λ i. omega (arith, g.once i);
      balance = unlocked-balance last;
      fresh = λ i low. omega (arith, g.fresh i low);
    }

    kept-IsHeld : 0 < strong_count j w → IsHeld w
    kept-IsHeld more = record {
      bound = g.bound;
      once = g.once;
      fresh = g.fresh;
      balance = λ i. elim (ℕ_discrete i j) [
        | yes same ↦
            let now : 0 < strong_count i w = rw same more in
            let here : locks i w.trace ≡ unlocks i w.trace + 1 = rw same g.here in
            ground (arith, now, here)
        | no other ↦ g.others i other
      ];
    }

    pub dropped-IsHeld : IsHeld (dropped j w)
    unfolding dropped
    dropped-IsHeld = elim (Bool-cases (eqb (strong_count j w) 0)) [
      | inl last ↦ rw last (unlocked-IsHeld (ground (arith, last)))
      | inr more ↦ rw more (kept-IsHeld (ground (arith, more)))
    ]
