-- ===== src/HashSet.antt =====
-- The standard library's `HashSet<u64>`, as a list without repetition; its order is not observed.
use neocache.Prelude.{
  ℕ, ◌≤◌, suc, Bool, true, false, List, [], ◌∷◌, length, eqb, if◌then◌else◌, arith,
}

unfoldable pub contains : ℕ → List ℕ → Bool
contains h [] = false
contains h (x ∷ xs) = if eqb h x then true else contains h xs

unfoldable pub insert : ℕ → List ℕ → List ℕ
unfolding contains
insert h xs = if contains h xs then xs else h ∷ xs

unfoldable pub remove : ℕ → List ℕ → List ℕ
remove h [] = []
remove h (x ∷ xs) = if eqb h x then xs else x ∷ remove h xs

pub length-remove-le : (h : ℕ) (xs : List ℕ) → length (remove h xs) ≤ length xs
unfolding remove
length-remove-le h [] = omega arith
length-remove-le h (x ∷ xs) = ground (arith, length-remove-le h xs)

pub length-insert-le : (h : ℕ) (xs : List ℕ) → length (insert h xs) ≤ suc (length xs)
unfolding insert
length-insert-le h xs = ground arith
