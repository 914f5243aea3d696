-- ===== src/Serde/Order.antt =====
-- The order of the entries that `visit_map` of src/ser.rs reads.
use mathlib.Core.List.{Permᴰ}
use mathlib.Core.List.Permᴰ.{nil, cons, swap, trans}
use mathlib.Core.Path.{fun_ext}
use neocache.Cache.Whole.Fresh.{last_of}
use neocache.Iter.Exact.Times.{times}
use neocache.Map.Spec.{updated}
use neocache.Prelude.{
  Bool, true, false, ◌≤◌, ◌≡◌, ◌≢◌, refl, sym, ◌∙◌, ap, inl, inr, Option, some, List, length,
  to_nat, Bool-cases, arith,
}
use neocache.Shard.{Item, hash_item}
use neocache.Table.{Key, RawTable, weigh}

pub to_nat_bit : (b : Bool) → to_nat b ≤ 1
to_nat_bit true = omega arith
to_nat_bit false = omega arith

pub length-Perm : {A : Type 0} {ps qs : List A} → Permᴰ ps qs → length ps ≡ length qs
length-Perm nil = refl
length-Perm (cons e p) = omega (arith, length-Perm p)
length-Perm (swap d e) = refl
length-Perm (trans p q) = length-Perm p ∙ length-Perm q

module _ {K V : Type 0} ⦃key : Key K⦄ (raw : RawTable (Item K V) hash_item) where
  times-Perm : {ps qs : List (K × V)} (k : K) → Permᴰ ps qs → times raw k ps ≡ times raw k qs
  unfolding weigh
  times-Perm k nil = refl
  times-Perm k (cons {a} {b} e p) = rw e (omega (arith, times-Perm k p))
  times-Perm k (swap {a} {b} d e) = rw (d, e) (omega arith)
  times-Perm k (trans p q) = times-Perm k p ∙ times-Perm k q

  -- Writes at different keys change places.
  updated-swap :
      (m : K → Option V) (a b : K × V)
      → a.0 ≢ b.0
      → updated (updated m a.0 (some a.1)) b.0 (some b.1)
        ≡ updated (updated m b.0 (some b.1)) a.0 (some a.1)
  updated-swap m a b apart = fun_ext (λ j. elim (Bool-cases (key.beq j a.0)) [
    | inl at_a ↦ elim (Bool-cases (key.beq j b.0)) [
      | inl at_b ↦ absurd (apart (sym ((key.beq_iff j a.0).0 at_a) ∙ (key.beq_iff j b.0).0 at_b))
      | inr off_b ↦ rw (at_a, off_b) refl
    ]
    | inr off_a ↦ rw off_a refl
  ])

  -- No key stands in the list twice.
  abbrev pub IsOnce : List (K × V) → Type 0
  IsOnce ps = (k : K) → times raw k ps ≤ 1

  pub last_of-Perm :
      {ps qs : List (K × V)} (m : K → Option V) (k : K)
      → Permᴰ ps qs
      → IsOnce ps
      → last_of m ps k ≡ last_of m qs k
  unfolding weigh
  last_of-Perm m k nil once = refl
  last_of-Perm m k (cons {a} {b} {l₁} {l₂} e p) once =
      last_of-Perm (updated m a.0 (some a.1)) k p (λ j. omega (arith, once j))
      ∙ ap (λ x. last_of (updated m x.0 (some x.1)) l₂ k) e
  last_of-Perm m k (swap {a} {b} {a'} {b'} {l} p q) once =
      let apart : a.0 ≢ b.0 =
        λ e. ground (arith, once b.0, (key.beq_iff a.0 b.0).1 e, (key.beq_iff b.0 b.0).1 refl) in
      ap (λ n. last_of n l k) (updated-swap m a b apart)
      ∙ ap (λ x. last_of (updated (updated m b.0 (some b.1)) x.0 (some x.1)) l k) p
      ∙ ap (λ x. last_of (updated (updated m x.0 (some x.1)) b'.0 (some b'.1)) l k) q
  last_of-Perm m k (trans p q) once =
      last_of-Perm m k p once ∙ last_of-Perm m k q (λ j. omega (arith, once j, times-Perm j p))
