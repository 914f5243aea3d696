-- ===== src/Table/Weigh.antt =====
-- The elements of a table seen without their order: the sum of any weight over them.
use neocache.Prelude.{ℕ, ◌+◌, ◌≤◌, ◌≡◌, refl, List, [], ◌∷◌, Option, none, some, arith}

-- The elements in the buckets of a walk.
unfoldable pub walk : {E B : Type 0} → (B → Option E) → List B → List E
walk at [] = []
walk at (b ∷ bs) = elim (at b) [ none ↦ walk at bs | some e ↦ e ∷ walk at bs ]

module _ {E : Type 0} where
  unfoldable pub weigh : (E → ℕ) → List E → ℕ
  weigh w [] = 0
  weigh w (x ∷ xs) = w x + weigh w xs

  pub weigh-nil : (w : E → ℕ) → weigh w [] ≡ 0
  unfolding weigh
  weigh-nil w = refl

  pub weigh_mono : (v w : E → ℕ) (xs : List E) → ((x : E) → v x ≤ w x) → weigh v xs ≤ weigh w xs
  unfolding weigh
  weigh_mono v w [] h = omega arith
  weigh_mono v w (x ∷ xs) h = omega (arith, h x, weigh_mono v w xs h)

  pub weigh_add : (v w : E → ℕ) (xs : List E) → weigh (λ x. v x + w x) xs ≡ weigh v xs + weigh w xs
  unfolding weigh
  weigh_add v w [] = refl
  weigh_add v w (x ∷ xs) = omega (arith, weigh_add v w xs)

  pub weigh_congr : (v w : E → ℕ) (xs : List E) → ((x : E) → v x ≡ w x) → weigh v xs ≡ weigh w xs
  unfolding weigh
  weigh_congr v w [] h = refl
  weigh_congr v w (x ∷ xs) h = omega (arith, h x, weigh_congr v w xs h)
